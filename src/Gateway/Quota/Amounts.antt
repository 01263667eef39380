-- ===== src/Gateway/Quota/Amounts.antt =====
-- src/gateway/quota.py: what a rule reserves, its key, its limit and its expiry.
use mathlib.Core.Option
use janus_server.Prelude.{ℕ, ◌+◌, ◌/◌, max, Option, none, some, ◌==◌, if◌then◌else◌}
use janus_server.Prelude.Int.{ℤ, pos, pos_part, ◌-ℤ◌, millionths}
use janus_server.Gateway.Quota.Defs.{
  QuotaMetric, tokens, requests, cost, other_metric, user, department, QuotaPeriod, daily, monthly,
  total, other_period, Decimal, int_micro, Quota, PeriodKey, day_key, month_key, total_key,
  QuotaKey, user_key, department_key, global_key,
}

abbrev pub quota_ttl_grace_seconds : ℕ
quota_ttl_grace_seconds = 1800 + 300

-- What the datetime library answers: the date of a moment, the date of its next day, and the whole
-- seconds from a moment to the first instant of a date.
pub record Calendar : Type 1 where
  pub Moment : Type 0
  pub date : Moment → ℕ × ℕ × ℕ
  pub tomorrow : Moment → ℕ × ℕ × ℕ
  pub seconds_until : ℕ × ℕ × ℕ → Moment → ℕ

-- `max(1, x)`.
abbrev at_least_one : ℤ → ℕ
at_least_one x = max 1 (pos_part x)

-- `(x or Decimal(0))`.
abbrev pub or_zero : Option Decimal → Decimal
or_zero none = pos 0
or_zero (some x) = x

unfoldable pub reserve_for_metric : QuotaMetric → ℕ → Option Decimal → ℕ
reserve_for_metric requests estimated_tokens estimated_cost = 1
reserve_for_metric tokens estimated_tokens estimated_cost = max 1 estimated_tokens
reserve_for_metric cost estimated_tokens estimated_cost =
    at_least_one (int_micro (or_zero estimated_cost))
reserve_for_metric (other_metric m) estimated_tokens estimated_cost = 1

unfoldable pub settlement_adjustment_for_metric : QuotaMetric → ℕ → ℤ → Option Decimal → ℤ
settlement_adjustment_for_metric requests reserved actual_tokens actual_cost = pos 0
settlement_adjustment_for_metric tokens reserved actual_tokens actual_cost =
    actual_tokens -ℤ pos reserved
settlement_adjustment_for_metric cost reserved actual_tokens actual_cost =
    int_micro (or_zero actual_cost) -ℤ pos reserved
settlement_adjustment_for_metric (other_metric m) reserved actual_tokens actual_cost = pos 0

-- The limit in the units of the counter: `int(limit_value * 1_000_000)` for costs, else the whole
-- part of `limit_value`.
unfoldable pub redis_limit : Quota → ℕ
redis_limit q = elim q.metric [ cost ↦ q.limit_value | _ ↦ q.limit_value / 1000000 ]

-- The counter as a Decimal, in millionths.
unfoldable pub points_from_redis : QuotaMetric → ℤ → ℤ
points_from_redis cost raw = raw
points_from_redis metric raw = millionths raw

module _ (cal : Calendar) where
  open cal use {Moment, date, tomorrow, seconds_until}

  unfoldable pub period_key : QuotaPeriod → Moment → PeriodKey
  period_key daily now = let (year, month, day) = date now in day_key year month day
  period_key monthly now = let (year, month, day) = date now in month_key year month
  period_key total now = total_key
  period_key (other_period p) now = total_key

  -- The first day of the next month.
  next_month : ℕ × ℕ × ℕ → ℕ × ℕ × ℕ
  next_month (year, month, day) =
      (year + (if month == 12 then 1 else 0), (if month == 12 then 1 else month + 1), 1)

  unfoldable pub ttl_seconds : QuotaPeriod → Moment → Option ℕ
  unfolding next_month
  ttl_seconds daily now = some (max 1 (seconds_until (tomorrow now) now) + quota_ttl_grace_seconds)
  ttl_seconds monthly now =
      some (max 1 (seconds_until (next_month (date now)) now) + quota_ttl_grace_seconds)
  ttl_seconds total now = none
  ttl_seconds (other_period p) now = none

  unfoldable pub key_for_quota : ℕ → Option ℕ → Quota → Moment → QuotaKey
  unfolding period_key
  key_for_quota user_id department_id quota now =
      let model_id = Option.get_or quota.logical_model_id 0 in
      let period = period_key quota.period now in
      elim quota.scope [
        | user ↦ user_key user_id model_id period quota.metric
        | department ↦
            department_key (elim quota.scope_id [ none ↦ department_id | some d ↦ some d ]) model_id
              period quota.metric
        | _ ↦ global_key model_id period quota.metric
      ]
