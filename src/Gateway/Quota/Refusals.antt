-- ===== src/Gateway/Quota/Refusals.antt =====
-- What QuotaLimitExceeded says.
use mathlib.Core.Path.{subst}
use janus_server.Prelude.{
  ℕ, zero, suc, ◌/◌, ◌≡◌, refl, ◌⊎◌, inl, inr, true, Option, List, [], ◌∷◌, map, arith, ap, Eq,
}
use janus_server.Prelude.Int.{ℤ, pos, ◌<ℤ◌}
use janus_server.Core.Redis.{Conn, Result, Fault, ok, err, redis_error, raised, continue}
use janus_server.Core.Redis.Counters.{Counters}
use janus_server.Core.Redis.Rules.{command-post, bind-post}
use janus_server.Gateway.Quota.Defs.{
  Quota, QuotaMetric, tokens, requests, cost, other_metric, QuotaKey, QuotaCheckResult, QuotaError,
  QuotaWarning, limit_exceeded, index_error, Decimal,
}
use janus_server.Gateway.Quota.Amounts.{Calendar, redis_limit, points_from_redis}
use janus_server.Gateway.Quota.Script.{Verdict, pass, fail, quota_check_script}
use janus_server.Gateway.Quota.Enforcer.{
  Planned, planned, rule, run_check, after_script, exceeded_at, collect_warnings,
  check_and_increment,
}
use janus_server.Gateway.Quota.Limits.{Blames, Explains, quota_check_script-Explains}
use janus_server.Gateway.Quota.Charges.{Reads, collect_warnings-Reads}

abbrev pub IsOneOf : Quota → List Quota → Type 0
IsOneOf q [] = ⊥
IsOneOf q (x ∷ xs) = (q ≡ x) ⊎ IsOneOf q xs

-- An error names an enforced rule of the list, and a value above its limit, in the same units.
abbrev pub Names : List Quota → QuotaError → Type 0
Names quotas (limit_exceeded q current) =
    IsOneOf q quotas × (q.enforce ≡ true) × (pos q.limit_value <ℤ current)
Names quotas index_error = ⊥

-- Being above the limit of the counter is being above `limit_value`.
above_limit :
    (q : Quota) (n : ℤ)
    → pos (redis_limit q) <ℤ n
    → pos q.limit_value <ℤ points_from_redis q.metric n
unfolding redis_limit points_from_redis
above_limit q n h = go q.metric h
  where
    go :
        (m : QuotaMetric)
        → pos (elim m [ cost ↦ q.limit_value | _ ↦ q.limit_value / 1000000 ]) <ℤ n
        → pos q.limit_value <ℤ points_from_redis m n
    go tokens h = ground arith
    go requests h = ground arith
    go cost h = h
    go (other_metric m) h = ground arith

abbrev pub quotas_of : List Planned → List Quota
quotas_of plan = map (λ p. p.quota) plan

module _ (e : Eq QuotaKey) (redis : Counters QuotaKey e) where
  open redis use {Store}

  -- An exception of the enforcer's own is such an error.
  abbrev pub Refuses : List Quota → Result QuotaError QuotaCheckResult × Conn Store → Type 0
  Refuses quotas (err (raised x), c) = Names quotas x
  Refuses quotas (err redis_error, c) = Unit
  Refuses quotas (ok r, c) = Unit

  Refuses-more :
      (q : Quota) (quotas : List Quota) (o : Result QuotaError QuotaCheckResult × Conn Store)
      → Refuses quotas o
      → Refuses (q ∷ quotas) o
  Refuses-more q quotas (err (raised (limit_exceeded x n)), c) (h, on, over) = (inr h, on, over)
  Refuses-more q quotas (err (raised index_error), c) h = absurd h
  Refuses-more q quotas (err redis_error, c) h = tt
  Refuses-more q quotas (ok r, c) h = tt

  exceeded_at-Refuses :
      (ttl : Quota → ℕ) (plan : List Planned) (k : ℕ) (n : ℤ) (c : Conn Store)
      → Blames (map (rule ttl) plan) k n
      → Refuses (quotas_of plan) (exceeded_at e redis (quotas_of plan) k n c)
  unfolding exceeded_at rule
  exceeded_at-Refuses ttl [] k n c h = absurd h
  exceeded_at-Refuses ttl (p ∷ plan) zero n c (on, over) =
      (inl refl, on, above_limit p.quota n over)
  exceeded_at-Refuses ttl (p ∷ plan) (suc k) n c h =
      Refuses-more p.quota (quotas_of plan) (exceeded_at e redis (quotas_of plan) k n c)
        (exceeded_at-Refuses ttl plan k n c h)

  after_script-Refuses :
      (ttl : Quota → ℕ) (plan : List Planned) (v : Verdict) (c : Conn Store)
      → Explains 0 (map (rule ttl) plan) v
      → Refuses (quotas_of plan) (after_script e redis plan v c)
  unfolding after_script
  after_script-Refuses ttl plan (fail i n) c (m, same, h) =
      exceeded_at-Refuses ttl plan i n c
        (subst (λ k. Blames (map (rule ttl) plan) k n) (omega (arith, same)) h)
  after_script-Refuses ttl plan pass c h =
      bind-post (Reads e redis c.store) (Refuses (quotas_of plan))
        (collect_warnings e redis (map (λ p. (p.key, p.quota)) plan)) _ c
        (collect_warnings-Reads e redis _ c) (λ ws c' same. tt) fails
    where
      fails :
          (x : Fault QuotaError) (c' : Conn Store)
          → Reads e redis {A = List QuotaWarning} c.store (err x, c')
          → Refuses (quotas_of plan) (err x, c')
      fails redis_error c' same = tt
      fails (raised x) c' same = absurd same

  run_check-Refuses :
      (ttl : Quota → ℕ) (plan : List Planned) (c : Conn Store)
      → Refuses (quotas_of plan) (run_check e redis ttl plan c)
  unfolding run_check
  run_check-Refuses ttl [] c = tt
  run_check-Refuses ttl (p ∷ plan) c =
      let rules = map (rule ttl) (p ∷ plan) in
      command-post
        (λ o. Refuses (quotas_of (p ∷ plan)) (continue o.0 (after_script e redis (p ∷ plan)) o.1))
        (quota_check_script e redis rules) c
        (λ up.
          after_script-Refuses ttl (p ∷ plan) (quota_check_script e redis rules c.store).0
            (record { store = (quota_check_script e redis rules c.store).1; up = up })
            (quota_check_script-Explains e redis rules c.store))
        (λ up. tt)

  module _ (cal : Calendar) (key_time ttl_time : Quota → cal.Moment) where
    quotas_of-planned :
        (user_id : ℕ) (department_id : Option ℕ) (quotas : List Quota) (estimated_tokens : ℕ)
        (estimated_cost : Option Decimal)
        → quotas_of
            (planned cal key_time user_id department_id quotas estimated_tokens estimated_cost)
          ≡ quotas
    unfolding planned
    quotas_of-planned user_id department_id [] t k = refl
    quotas_of-planned user_id department_id (q ∷ quotas) t k =
        ap (λ qs. q ∷ qs) (quotas_of-planned user_id department_id quotas t k)

    -- The only exception besides RedisError that `check_and_increment` raises is
    -- QuotaLimitExceeded; it carries an enforced rule of the list that was checked, and a value
    -- above the `limit_value` of that rule, in the same units.
    pub check_and_increment-Refuses :
        (user_id : ℕ) (department_id : Option ℕ) (logical_model_id : ℕ) (quotas : List Quota)
        (estimated_tokens : ℕ) (estimated_cost : Option Decimal) (c : Conn Store)
        → Refuses quotas (
            check_and_increment e redis cal key_time ttl_time user_id department_id logical_model_id
              quotas estimated_tokens estimated_cost c)
    unfolding check_and_increment
    check_and_increment-Refuses user_id department_id logical_model_id quotas estimated_tokens
          estimated_cost c =
        subst
          (λ qs. Refuses qs (
            check_and_increment e redis cal key_time ttl_time user_id department_id logical_model_id
              quotas estimated_tokens estimated_cost c))
          (quotas_of-planned user_id department_id quotas estimated_tokens estimated_cost)
          (run_check-Refuses _
            (planned cal key_time user_id department_id quotas estimated_tokens estimated_cost) c)
