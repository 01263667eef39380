-- ===== src/Gateway/Quota/Fallback.antt =====
-- src/gateway/quota.py: _run_check_fallback, the quota check for a client without scripts.
use janus_server.Prelude.{ℕ, ◌+◌, ◌&&◌, Bool, List, [], ◌∷◌, ◌++◌, ltb, Eq, if◌then◌else◌}
use janus_server.Prelude.Int.{ℤ, pos, ltb_ℤ, same_ℤ, ◌-ℤ◌}
use janus_server.Core.Redis.{Conn, Client, pure, late_command, ◌>>=◌, ◌>>◌}
use janus_server.Core.Redis.Counters.{Counters}
use janus_server.Gateway.Quota.Defs.{QuotaKey, QuotaError}
use janus_server.Gateway.Quota.Script.{Rule, Verdict, pass, fail}

-- Each command is a round trip, and `ran` says whether one that raises was served all the same.
module _ (e : Eq QuotaKey) (redis : Counters QuotaKey e) (ran : Conn redis.Store → Bool) where
  open redis use {Store, count, incrby, expire}

  abbrev pub Fallback : Type 0 → Type 0
  Fallback A = Client Store QuotaError A

  -- INCRBY, with the count that it answers.
  abbrev pub increment : QuotaKey → ℤ → Fallback ℤ
  increment key amount =
      late_command ran (λ s. (count key (incrby key amount s), incrby key amount s))

  abbrev pub expire_new : Rule → ℤ → Fallback (Unit {0})
  expire_new rule n =
      if same_ℤ n (pos rule.reserve) && ltb 0 rule.ttl
      then late_command ran (λ s. (tt, expire rule.key rule.ttl s))
      else pure tt

  -- `for key, amount in incremented`: INCRBY of the negative amount.
  unfoldable pub take_back : List (QuotaKey × ℕ) → Fallback (Unit {0})
  take_back [] = pure tt
  take_back ((key, amount) ∷ rest) = increment key (pos 0 -ℤ pos amount) >> take_back rest

  -- `if enforce == 1 and count > limit`.
  abbrev pub judge : ℕ → Rule → ℤ → List (QuotaKey × ℕ) → Fallback Verdict → Fallback Verdict
  judge index rule n incremented others =
      if rule.enforce && ltb_ℤ (pos rule.limit) n
      then take_back incremented >> pure (fail index n)
      else others

  -- `for index in range(quota_count)`, from `index` on.
  unfoldable pub fallback_rules : ℕ → List (QuotaKey × ℕ) → List Rule → Fallback Verdict
  unfolding take_back
  fallback_rules index incremented [] = pure pass
  fallback_rules index incremented (rule ∷ rest) =
      let incremented' = incremented ++ (rule.key, rule.reserve) ∷ [] in
      let others = fallback_rules (index + 1) incremented' rest in
      increment rule.key (pos rule.reserve) >>= λ n.
      expire_new rule n >> judge index rule n incremented' others

  unfoldable pub run_check_fallback : List Rule → Fallback Verdict
  unfolding fallback_rules
  run_check_fallback = fallback_rules 0 []
