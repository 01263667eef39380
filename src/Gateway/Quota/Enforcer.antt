-- ===== src/Gateway/Quota/Enforcer.antt =====
-- src/gateway/quota.py: class QuotaEnforcer. The breach that `settle_reservations` logs changes
-- nothing: only its GET, which may raise, is modelled.
use mathlib.Core.Option
use janus_server.Prelude.{
  ℕ, zero, suc, true, not, ◌&&◌, Option, List, [], ◌∷◌, map, ◌==◌, Eq, if◌then◌else◌,
}
use janus_server.Prelude.Int.{ℤ, pos, ◌-ℤ◌, ltb_ℤ, same_ℤ}
use janus_server.Core.Redis.{Client, pure, raise, command, ◌>>=◌, ◌>>◌}
use janus_server.Core.Redis.Counters.{Counters}
use janus_server.Gateway.Quota.Defs.{
  Decimal, Quota, QuotaKey, QuotaWarning, QuotaReservation, QuotaCheckResult, QuotaError,
  limit_exceeded, index_error,
}
use janus_server.Gateway.Quota.Amounts.{
  Calendar, reserve_for_metric, settlement_adjustment_for_metric, redis_limit, points_from_redis,
  ttl_seconds, key_for_quota,
}
use janus_server.Gateway.Quota.Script.{Rule, Verdict, pass, fail, quota_check_script}

-- A quota with its resolved key and the amount that it reserves.
abbrev pub Planned : Type 0
Planned = record { quota : Quota; key : QuotaKey; reserve : ℕ }

unfoldable pub reservation : Planned → QuotaReservation
reservation p = record {
  key = p.key;
  quota_id = p.quota.id;
  metric = p.quota.metric;
  scope = p.quota.scope;
  enforce = p.quota.enforce;
  limit_value = p.quota.limit_value;
  reserved = p.reserve;
}

unfoldable pub rule : (Quota → ℕ) → Planned → Rule
unfolding redis_limit
rule ttl p = record {
  key = p.key;
  ttl = ttl p.quota;
  limit = redis_limit p.quota;
  enforce = p.quota.enforce;
  reserve = p.reserve;
}

-- The lists `keys` and `reserves`. The clock is read anew for each key and for each expiry:
-- `key_time` and `ttl_time` say what it showed for each rule.
unfoldable pub planned :
    (cal : Calendar)
    → (Quota → cal.Moment)
    → ℕ
    → Option ℕ
    → List Quota
    → ℕ
    → Option Decimal
    → List Planned
unfolding key_for_quota reserve_for_metric
planned cal key_time user_id department_id quotas estimated_tokens estimated_cost =
    map
      (λ q. record {
        quota = q;
        key = key_for_quota cal user_id department_id q (key_time q);
        reserve = reserve_for_metric q.metric estimated_tokens estimated_cost;
      })
      quotas

module _ (e : Eq QuotaKey) (redis : Counters QuotaKey e) where
  open redis use {Store, count, incrby}

  -- `_count`: GET in one round trip.
  abbrev pub get_count : QuotaKey → Client Store QuotaError ℤ
  get_count key = command (λ s. (count key s, s))

  abbrev pub reply_incrby : QuotaKey → ℤ → Client Store QuotaError ℤ
  reply_incrby key amount = command (λ s. let s' = incrby key amount s in (count key s', s'))

  -- The loop over `warnings`.
  unfoldable pub collect_warnings :
      List (QuotaKey × Quota) → Client Store QuotaError (List QuotaWarning)
  unfolding points_from_redis
  collect_warnings [] = pure []
  collect_warnings ((key, quota) ∷ rest) = do
    n ← get_count key
    let current = points_from_redis quota.metric n
    warnings ← collect_warnings rest
    pure (
        if not quota.enforce && ltb_ℤ (pos quota.limit_value) current
        then (record {
          quota_id = quota.id;
          metric = quota.metric;
          period = quota.period;
          current = current;
          limit = quota.limit_value;
        })
          ∷ warnings
        else warnings)

  -- The quota at the index that the script returned.
  unfoldable pub exceeded_at : List Quota → ℕ → ℤ → Client Store QuotaError QuotaCheckResult
  unfolding points_from_redis
  exceeded_at [] i n = raise index_error
  exceeded_at (quota ∷ quotas) zero n =
      raise (limit_exceeded quota (points_from_redis quota.metric n))
  exceeded_at (quota ∷ quotas) (suc i) n = exceeded_at quotas i n

  -- The part of `check_and_increment` behind the script.
  unfoldable pub after_script : List Planned → Verdict → Client Store QuotaError QuotaCheckResult
  unfolding exceeded_at collect_warnings reservation
  after_script plan (fail i n) = exceeded_at (map (λ p. p.quota) plan) i n
  after_script plan pass = do
    warnings ← collect_warnings (map (λ p. (p.key, p.quota)) plan)
    pure (record { passed = true; warnings = warnings; reservations = map reservation plan })

  unfoldable pub run_check : (Quota → ℕ) → List Planned → Client Store QuotaError QuotaCheckResult
  unfolding rule after_script quota_check_script
  run_check ttl [] = pure (record { passed = true; warnings = []; reservations = [] })
  run_check ttl plan = do
    verdict ← command (quota_check_script e redis (map (rule ttl) plan))
    after_script plan verdict

  module _ (cal : Calendar) (key_time ttl_time : Quota → cal.Moment) where
    unfoldable pub check_and_increment :
        ℕ
        → Option ℕ
        → ℕ
        → List Quota
        → ℕ
        → Option Decimal
        → Client Store QuotaError QuotaCheckResult
    unfolding run_check ttl_seconds
    check_and_increment user_id department_id logical_model_id quotas estimated_tokens
          estimated_cost =
        run_check (λ q. Option.get_or (ttl_seconds cal q.period (ttl_time q)) 0)
          (planned cal key_time user_id department_id quotas estimated_tokens estimated_cost)

  unfoldable pub settle_reservations :
      List QuotaReservation → ℤ → Option Decimal → Client Store QuotaError (Unit {0})
  unfolding settlement_adjustment_for_metric
  settle_reservations [] actual_tokens actual_cost = pure tt
  settle_reservations (res ∷ rest) actual_tokens actual_cost =
      let adjustment =
        settlement_adjustment_for_metric res.metric res.reserved actual_tokens actual_cost in
      let others = settle_reservations rest actual_tokens actual_cost in
      if same_ℤ adjustment (pos 0)
      then others
      else do reply_incrby res.key adjustment; get_count res.key; others

  unfoldable pub compensate_reservations :
      List QuotaReservation → Client Store QuotaError (Unit {0})
  compensate_reservations [] = pure tt
  compensate_reservations (res ∷ rest) =
      let others = compensate_reservations rest in
      if res.reserved == 0
      then others
      else do reply_incrby res.key (pos 0 -ℤ pos res.reserved); others
