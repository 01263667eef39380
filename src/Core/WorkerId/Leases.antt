-- ===== src/Core/WorkerId/Leases.antt =====
-- The lease keys of Redis, the two Lua scripts, and acquire_worker_id.
use janus_server.Prelude.{
  ℕ, zero, suc, ◌+◌, ◌-◌, ◌==◌, leb, ◌≡◌, refl, Bool, true, false, Option, none, some, Eq,
  if◌then◌else◌,
}
use janus_server.Core.Redis.{Conn, Client, Result, ok, err, pure, raise, command, ◌>>=◌}
use janus_server.Core.Snowflake.{max_worker_id}

-- Time passes for a key that has some seconds left.
abbrev pub aged : {Token : Type 0} → ℕ → Option (Token × ℕ) → Option (Token × ℕ)
aged d none = none
aged d (some (token, left)) = if leb left d then none else some (token, left - d)

-- Keys with an expiry, as the Redis documentation describes them: the token of a key with the seconds
-- that it has left. A key vanishes when they have passed.
pub record Leases (Token : Type 0) : Type 1 where
  pub Store : Type 0
  pub lease_of : ℕ → Store → Option (Token × ℕ)
  pub put : ℕ → Option (Token × ℕ) → Store → Store
  pub pass : ℕ → Store → Store
  pub lease_of-put :
      (j k : ℕ) (o : Option (Token × ℕ)) (s : Store)
      → lease_of j (put k o s) ≡ (if j == k then o else lease_of j s)
  pub lease_of-pass : (j d : ℕ) (s : Store) → lease_of j (pass d s) ≡ aged d (lease_of j s)

abbrev pub plain_leases : (Token : Type 0) → Leases Token
plain_leases Token = record {
  Store = ℕ → Option (Token × ℕ);
  lease_of = λ k s. s k;
  put = λ k o s j. if j == k then o else s j;
  pass = λ d s j. aged d (s j);
  lease_of-put = λ j k o s. refl;
  lease_of-pass = λ j d s. refl;
}

pub data LeaseError : Type 0 where
  worker_id_unavailable : LeaseError

module _ {Token : Type 0} (f : Eq Token) (redis : Leases Token) where
  open redis use {Store, lease_of, put}

  pub record WorkerIdLease : Type 0 where
    pub worker_id : ℕ
    pub token : Token
    pub ttl_seconds : ℕ
    -- The clock at the last renewal, or when the heartbeat began.
    pub last_renew_monotonic : Option ℕ

  abbrev pub owned_by : Token → Option (Token × ℕ) → Bool
  owned_by token none = false
  owned_by token (some (t, left)) = f.same t token

  -- _RENEW_LUA
  unfoldable pub renew_script : ℕ → Token → ℕ → Store → Bool × Store
  renew_script worker_id token ttl s =
      if owned_by token (lease_of worker_id s)
      then (true, put worker_id (some (token, ttl)) s)
      else (false, s)

  -- _RELEASE_LUA
  unfoldable pub release_script : ℕ → Token → Store → Bool × Store
  release_script worker_id token s =
      if owned_by token (lease_of worker_id s) then (true, put worker_id none s) else (false, s)

  -- SET NX EX
  abbrev pub set_if_free : ℕ → Token → ℕ → Option (Token × ℕ) → Store → Bool × Store
  set_if_free worker_id token ttl none s = (true, put worker_id (some (token, ttl)) s)
  set_if_free worker_id token ttl (some lease) s = (false, s)

  unfoldable pub claim : ℕ → Token → ℕ → Store → Bool × Store
  claim worker_id token ttl s = set_if_free worker_id token ttl (lease_of worker_id s) s

  abbrev pub try_claim : ℕ → Token → ℕ → Client Store LeaseError Bool
  try_claim worker_id token ttl = command (claim worker_id token ttl)

  -- What acquire_worker_id gives: the number for the generator, and the lease if there is one.
  pub record Acquired : Type 0 where
    pub pinned : ℕ
    pub lease : Option WorkerIdLease

  abbrev pub leased : ℕ → Token → ℕ → Acquired
  leased candidate token ttl = record {
    pinned = candidate;
    lease = some (record {
      worker_id = candidate;
      token = token;
      ttl_seconds = ttl;
      last_renew_monotonic = none;
    });
  }

  abbrev pub fallback : Bool → Client Store LeaseError Acquired
  fallback true = pure (record { pinned = 0; lease = none })
  fallback false = raise worker_id_unavailable

  abbrev pub after_try :
      Bool
      → Acquired
      → Client Store LeaseError (Option Acquired)
      → Client Store LeaseError (Option Acquired)
  after_try true found next = pure (some found)
  after_try false found next = next

  -- The loop over the candidates; `left` numbers are still to be tried.
  unfoldable pub walk_candidates : Token → ℕ → ℕ → ℕ → Client Store LeaseError (Option Acquired)
  unfolding claim
  walk_candidates token ttl zero candidate = pure none
  walk_candidates token ttl (suc left) candidate = do
    acquired ← try_claim candidate token ttl
    after_try acquired (leased candidate token ttl) (walk_candidates token ttl left (candidate + 1))

  abbrev pub conclude_acquire :
      Bool
      → Result LeaseError (Option Acquired) × Conn Store
      → Result LeaseError Acquired × Conn Store
  conclude_acquire is_local (ok (some found), c) = (ok found, c)
  conclude_acquire is_local (ok none, c) = fallback is_local c
  conclude_acquire is_local (err x, c) = fallback is_local c

  unfoldable pub acquire_worker_id : Bool → Token → ℕ → Client Store LeaseError Acquired
  unfolding walk_candidates
  acquire_worker_id is_local token ttl c =
      conclude_acquire is_local (walk_candidates token ttl (max_worker_id + 1) 0 c)
