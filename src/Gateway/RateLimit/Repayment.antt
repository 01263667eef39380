-- ===== src/Gateway/RateLimit/Repayment.antt =====
-- src/gateway/rate_limit.py: how long a bucket in debt lives after a settlement.
use mathlib.Core.Option
use native.Mathlib.Nat.{le_trans, mul-le-mul_right, div-add-mod', mod-lt}
use janus_server.Prelude.{
  ℕ, suc, max, lt→ltb, ◌+◌, ◌*◌, ◌/◌, ◌-◌, ◌≤◌, ◌<◌, ◌≡◌, refl, ◌∙◌, true, Option, none, some, Eq,
  arith,
}
use janus_server.Prelude.Int.{ℤ, pos, negsuc, ◌+ℤ◌, ◌≤ℤ◌, int_laws}
use janus_server.Core.Redis.Windows.{Bucket, Windows}
use janus_server.Gateway.RateLimit.Keys.{RateKey}
use janus_server.Gateway.RateLimit.Scripts.{refill, min_ℤ, effective_ttl, settle_bucket, tpm_settle}
use janus_server.Gateway.RateLimit.Buckets.{bucket_written}

repaid : (d rate : ℕ) → 0 < rate → d * 60000 ≤ (d * 60000 + (rate - 1)) / rate * rate
repaid d rate h =
    omega (arith, div-add-mod' (d * 60000 + (rate - 1)) rate, mod-lt (d * 60000 + (rate - 1)) h)

refill-covers : (d q ttl rate : ℕ) → d * 60000 ≤ q * rate → d ≤ max ttl (q + ttl) * rate / 60000
refill-covers d q ttl rate h = omega (arith, le_trans h (mul-le-mul_right rate (longer q ttl)))
  where
    longer : (q ttl : ℕ) → q ≤ max ttl (q + ttl)
    longer q ttl = omega arith

effective_ttl-repays :
    (tokens : ℤ) (ttl_ms rate : ℕ)
    → 0 < rate
    → pos 0 ≤ℤ tokens +ℤ refill (pos (effective_ttl tokens ttl_ms rate)) rate
unfolding effective_ttl refill
effective_ttl-repays (pos n) ttl_ms rate h = omega int_laws
effective_ttl-repays (negsuc n) ttl_ms rate h =
    let paid =
      refill-covers (suc n) ((suc n * 60000 + (rate - 1)) / rate) ttl_ms rate
        (repaid (suc n) rate h) in
    rw (lt→ltb 0 (suc n) (omega arith), lt→ltb 0 rate h) (omega (int_laws, paid))

effective_ttl-ge : (tokens : ℤ) (ttl_ms rate : ℕ) → ttl_ms ≤ effective_ttl tokens ttl_ms rate
unfolding effective_ttl
effective_ttl-ge tokens ttl_ms rate = ground arith

module _ {M : Type 0} (e : Eq RateKey) (f : Eq M) (redis : Windows RateKey M e f) where
  open redis use {Store, bucket, pttl, pexpire, hset, pttl-pexpire}

  -- At the end of the expiry that the key has, the refill has paid what the bucket owes.
  pub record Repays (key : RateKey) (ttl_ms rate : ℕ) (s : Store) : Type 0 where
    pub tokens : ℤ
    pub ts : Option ℕ
    pub expiry : ℕ
    pub held : bucket key s ≡ some (record { tokens = some tokens; ts = ts })
    pub expires : pttl key s ≡ some expiry
    pub lasts : ttl_ms ≤ expiry
    pub repaid_then : pos 0 ≤ℤ tokens +ℤ refill (pos expiry) rate

  written-Repays :
      (key : RateKey) (ttl_ms rate : ℕ) (tokens : ℤ) (ts : Option ℕ) (s : Store)
      → 0 < rate
      → Repays key ttl_ms rate (
          pexpire key
            (effective_ttl tokens ttl_ms rate)
            (hset key (record { tokens = some tokens; ts = ts }) s))
  written-Repays key ttl_ms rate tokens ts s h = record {
    tokens = tokens;
    ts = ts;
    expiry = effective_ttl tokens ttl_ms rate;
    held = bucket_written e f redis key _ _ s;
    expires = pttl-pexpire key key _ _ s ∙ rw ((e.same_iff key key).1 refl) refl;
    lasts = effective_ttl-ge tokens ttl_ms rate;
    repaid_then = effective_ttl-repays tokens ttl_ms rate h;
  }

  -- A settlement that finds the bucket, whatever debt it leaves there, sets an expiry of at least the
  -- asked one, at the end of which the refill of that time has brought the tokens back to 0 or more.
  pub tpm_settle-Repays :
      (key : RateKey) (delta : ℤ) (limit ttl_ms rate : ℕ) (s : Store)
      → 0 < rate
      → (tpm_settle e f redis key delta limit ttl_ms rate s).0 ≡ true
      → Repays key ttl_ms rate (tpm_settle e f redis key delta limit ttl_ms rate s).1
  unfolding tpm_settle settle_bucket
  tpm_settle-Repays key delta limit ttl_ms rate s h found = go (bucket key s) found
    where
      go :
          (o : Option Bucket)
          → (settle_bucket e f redis key delta limit ttl_ms rate o s).0 ≡ true
          → Repays key ttl_ms rate (settle_bucket e f redis key delta limit ttl_ms rate o s).1
      go none found = absurd cc
      go (some b) found =
          written-Repays key ttl_ms rate
            (min_ℤ (Option.get_or b.tokens (pos 0) +ℤ delta) (pos limit)) b.ts s h
