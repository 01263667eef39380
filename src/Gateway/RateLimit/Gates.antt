-- ===== src/Gateway/RateLimit/Gates.antt =====
-- src/gateway/rate_limit.py: `check_rate_limits`, its rollback, and the releases. The id of the
-- request is for the log only, so it is left out.
use janus_server.Prelude.{
  ℕ, ◌+◌, ◌*◌, ◌/◌, ◌-◌, max, ltb, Bool, true, false, Option, none, some, List, [], ◌∷◌, ◌++◌, Eq,
  if◌then◌else◌,
}
use janus_server.Prelude.Int.{ℤ, pos, same_ℤ}
use janus_server.Core.Redis.{Conn, Client, Result, ok, err, pure, command, ◌>>=◌, ◌>>◌}
use janus_server.Core.Redis.Windows.{Windows as Sets}
use janus_server.Gateway.RateLimit.Defs.{RateLimitRule, Subject}
use janus_server.Gateway.RateLimit.Keys.{
  RateKey, rpm_key_of, tpm_key_of, conc_key_of, burst_limit, tpm_bucket_ttl_ms,
  concurrent_stale_timeout_seconds, DeniedReason, rpm_exceeded, tpm_exceeded, concurrent_exceeded,
  degraded_rate_limited, RateLimitCheckResult,
}
use janus_server.Gateway.RateLimit.Scripts.{rpm_check, tpm_check, tpm_settle, concurrent_check}
use janus_server.Gateway.RateLimit.Emergency.{
  EmergencyWindows, emergency_admit, emergency_window_seconds,
}

abbrev pub denied_by : DeniedReason → ℕ → RateLimitCheckResult
denied_by reason retry_after = record {
  allowed = false;
  rpm_remaining = none;
  tpm_remaining = none;
  concurrent_remaining = none;
  retry_after_seconds = some retry_after;
  denied_reason = some reason;
}

-- What a request holds, and what it will report if it is let in.
pub record Acquired : Type 0 where
  pub rpm : List RateLimitRule
  pub tpm : List RateLimitRule
  pub concurrent : Bool
  pub rpm_remaining : Option ℕ
  pub tpm_remaining : Option ℤ
  pub concurrent_remaining : Option ℕ

abbrev pub nothing : Acquired
nothing = record {
  rpm = [];
  tpm = [];
  concurrent = false;
  rpm_remaining = none;
  tpm_remaining = none;
  concurrent_remaining = none;
}

-- A gate either lets the loop go on, or the whole check returns.
pub data Step : Type 0 where
  passed : Acquired → Step
  denied : RateLimitCheckResult → Step

-- `max(1, (oldest_score + 60000 - now_ms + 999) // 1000)`, or the whole window.
unfoldable pub retry_after : Option ℕ → ℕ → ℕ
retry_after none now_ms = 60
retry_after (some oldest_score) now_ms = max 1 ((oldest_score + 60000 + 999 - now_ms) / 1000)

module _ {S : Type 0} where
  -- `with suppress(RedisError)`.
  abbrev pub suppress : Client S ⊥ (Unit {0}) → Client S ⊥ (Unit {0})
  suppress m c = let (r, c') = m c in (ok tt, c')

  abbrev pub then_gate : Client S ⊥ Step → (Acquired → Client S ⊥ Step) → Client S ⊥ Step
  then_gate m next = m >>= (λ step. elim step [ passed a ↦ next a | denied r ↦ pure (denied r) ])

module _ {M : Type 0} (e : Eq RateKey) (f : Eq M) (redis : Sets RateKey M e f) where
  open redis use {Store, zrem}

  unfoldable pub zrem_each : List RateKey → M → Client Store ⊥ (Unit {0})
  zrem_each [] member = pure tt
  zrem_each (key ∷ keys) member = command (λ s. (tt, zrem key member s)) >> zrem_each keys member

  -- The keys of the rules that have a limit of the kind.
  unfoldable pub rpm_keys : List RateLimitRule → List RateKey
  unfolding rpm_key_of
  rpm_keys [] = []
  rpm_keys (rule ∷ rules) = elim rule.rpm_limit [
    | none ↦ rpm_keys rules
    | some limit ↦ rpm_key_of rule ∷ rpm_keys rules
  ]

  unfoldable pub conc_keys : List RateLimitRule → List RateKey
  unfolding conc_key_of
  conc_keys [] = []
  conc_keys (rule ∷ rules) = elim rule.max_concurrent [
    | none ↦ conc_keys rules
    | some limit ↦ conc_key_of rule ∷ conc_keys rules
  ]

  unfoldable pub release_rpm : M → List RateLimitRule → Client Store ⊥ (Unit {0})
  unfolding zrem_each rpm_keys
  release_rpm member rules = suppress (zrem_each (rpm_keys rules) member)

  unfoldable pub release_concurrent : M → List RateLimitRule → Client Store ⊥ (Unit {0})
  unfolding zrem_each conc_keys
  release_concurrent member rules = suppress (zrem_each (conc_keys rules) member)

  unfoldable pub settle_rules : List RateLimitRule → ℤ → Client Store ⊥ (Unit {0})
  unfolding tpm_settle tpm_key_of burst_limit
  settle_rules [] delta_tokens = pure tt
  settle_rules (rule ∷ rules) delta_tokens =
      let others = settle_rules rules delta_tokens in
      elim rule.tpm_limit [
        | none ↦ others
        | some tpm_limit ↦
            command (
              tpm_settle e f redis (tpm_key_of rule) delta_tokens (burst_limit rule tpm_limit)
                tpm_bucket_ttl_ms tpm_limit)
            >> others
      ]

  unfoldable pub settle_tpm : List RateLimitRule → ℤ → Client Store ⊥ (Unit {0})
  unfolding settle_rules
  settle_tpm rules delta_tokens =
      if same_ℤ delta_tokens (pos 0) then pure tt else settle_rules rules delta_tokens

  module _ (member : M) (rules : List RateLimitRule) (estimated_tokens : ℕ) (is_stream : Bool)
      (now_ms : ℕ) where
    -- `_rollback`.
    unfoldable pub rollback : Acquired → Client Store ⊥ (Unit {0})
    unfolding release_rpm settle_tpm release_concurrent
    rollback a = do
      release_rpm member a.rpm
      suppress (settle_tpm a.tpm (pos estimated_tokens))
      if a.concurrent then release_concurrent member rules else pure tt

    abbrev pub deny : Acquired → RateLimitCheckResult → Client Store ⊥ Step
    deny a result = rollback a >> pure (denied result)

    -- What follows each script's answer.
    unfoldable pub rpm_answer :
        RateLimitRule → Acquired → ℕ → Bool × ℕ × Option ℕ → Client Store ⊥ Step
    unfolding rollback retry_after
    rpm_answer rule a limit (allowed, current, oldest) =
        if allowed
        then pure
            (passed (record a { rpm = a.rpm ++ rule ∷ []; rpm_remaining = some (limit - current) }))
        else deny a
            (record (denied_by rpm_exceeded (retry_after oldest now_ms)) { rpm_remaining = some 0 })

    unfoldable pub tpm_answer : RateLimitRule → Acquired → Bool × ℤ → Client Store ⊥ Step
    unfolding rollback
    tpm_answer rule a (allowed, current) =
        if allowed
        then pure (passed (record a { tpm = a.tpm ++ rule ∷ []; tpm_remaining = some current }))
        else deny a (record (denied_by tpm_exceeded 10) { tpm_remaining = some (pos 0) })

    unfoldable pub concurrent_answer : Acquired → ℕ → Bool × ℕ → Client Store ⊥ Step
    unfolding rollback
    concurrent_answer a limit (allowed, current) =
        if allowed
        then pure
            (passed (record a { concurrent = true; concurrent_remaining = some (limit - current) }))
        else deny a (record (denied_by concurrent_exceeded 5) { concurrent_remaining = some 0 })

    unfoldable pub rpm_gate : RateLimitRule → Acquired → Client Store ⊥ Step
    unfolding rpm_check rpm_key_of rpm_answer
    rpm_gate rule a = elim rule.rpm_limit [
      | none ↦ pure (passed a)
      | some limit ↦
          command (rpm_check e f redis (rpm_key_of rule) now_ms 60000 limit member)
          >>= rpm_answer rule a limit
    ]

    unfoldable pub tpm_gate : RateLimitRule → Acquired → Client Store ⊥ Step
    unfolding tpm_check tpm_key_of burst_limit tpm_answer
    tpm_gate rule a = elim rule.tpm_limit [
      | none ↦ pure (passed a)
      | some tpm_limit ↦
          if ltb 0 estimated_tokens
          then command (
              tpm_check e f redis (tpm_key_of rule) now_ms (burst_limit rule tpm_limit)
                estimated_tokens tpm_limit tpm_bucket_ttl_ms)
            >>= tpm_answer rule a
          else pure (passed a)
    ]

    unfoldable pub concurrent_gate : RateLimitRule → Acquired → Client Store ⊥ Step
    unfolding concurrent_check conc_key_of concurrent_answer
    concurrent_gate rule a = elim rule.max_concurrent [
      | none ↦ pure (passed a)
      | some limit ↦
          if is_stream
          then command (
              concurrent_check e f redis (conc_key_of rule) now_ms limit member
                (concurrent_stale_timeout_seconds * 1000))
            >>= concurrent_answer a limit
          else pure (passed a)
    ]

    -- `for rule in rules`.
    unfoldable pub gates : List RateLimitRule → Acquired → Client Store ⊥ Step
    unfolding rpm_gate tpm_gate concurrent_gate
    gates [] a = pure (passed a)
    gates (rule ∷ rest) a =
        then_gate (rpm_gate rule a)
          (λ a. then_gate (tpm_gate rule a) (λ a. then_gate (concurrent_gate rule a) (gates rest)))

    -- What the loop ended with, and the emergency limiter for a RedisError.
    unfoldable pub conclude :
        Eq Subject → EmergencyWindows → Result ⊥ Step → RateLimitCheckResult × EmergencyWindows
    unfolding emergency_admit
    conclude g windows (ok (denied result)) = (result, windows)
    conclude g windows (ok (passed a)) = (
      record {
        allowed = true;
        rpm_remaining = a.rpm_remaining;
        tpm_remaining = a.tpm_remaining;
        concurrent_remaining = a.concurrent_remaining;
        retry_after_seconds = none;
        denied_reason = none;
      },
      windows,
    )
    conclude g windows (err fault) =
        let (admitted, windows') = emergency_admit g rules now_ms windows in
        (
          if admitted
              then record {
                allowed = true;
                rpm_remaining = none;
                tpm_remaining = none;
                concurrent_remaining = none;
                retry_after_seconds = none;
                denied_reason = none;
              }
              else denied_by degraded_rate_limited emergency_window_seconds,
          windows',
        )

    unfoldable pub check_rate_limits :
        Eq Subject
        → EmergencyWindows
        → Conn Store
        → RateLimitCheckResult × EmergencyWindows × Conn Store
    unfolding gates conclude
    check_rate_limits g windows c =
        let (r, c') = gates rules nothing c in
        let (result, windows') = conclude g windows r in (result, windows', c')
