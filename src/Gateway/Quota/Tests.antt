-- ===== src/Gateway/Quota/Tests.antt =====
-- Runs of the enforcer on a plain map of counters.
use Prim.Native.String.{String}
use janus_server.Prelude.{
  false, ℕ, ◌≡◌, refl, ap, true, none, [], ◌∷◌, Eq, discrete_eq, eq_discrete, string_eq, ℕ_discrete,
  All,
}
use janus_server.Prelude.Int.{pos, ◌+ℤ◌, ◌-ℤ◌, ◌≤ℤ◌}
use janus_server.Core.Redis.{Conn, ok}
use janus_server.Core.Redis.Counters.{Counters, plain}
use janus_server.Gateway.Quota.Defs.{
  QuotaMetric, tokens, user, total, PeriodKey, QuotaKey, user_key, total_key, Quota,
  QuotaReservation, QuotaCheckResult,
}
use janus_server.Gateway.Quota.Amounts.{Calendar}
use janus_server.Gateway.Quota.Script.{Rule, Verdict, quota_check_script}
use janus_server.Gateway.Quota.Enforcer.{
  check_and_increment, settle_reservations, compensate_reservations, planned,
}
use janus_server.Gateway.Quota.Charges.{Charged, check_and_increment-Charged}
use janus_server.Gateway.Quota.Refusals.{Refuses, check_and_increment-Refuses}
use janus_server.Gateway.Quota.Limits.{quota_check_script-Within}
use janus_server.Gateway.Quota.Fallback.{run_check_fallback}
use janus_server.Gateway.Quota.Verdicts.{Concludes, run_check_fallback-Concludes}
use janus_server.Gateway.Quota.Balance.{used_on, settle-balances, compensate-balances}

abbrev String_discrete : Discrete String
String_discrete = eq_discrete string_eq

abbrev QuotaMetric-discrete : Discrete QuotaMetric
QuotaMetric-discrete = hlevel String_discrete

abbrev PeriodKey-discrete : Discrete PeriodKey
PeriodKey-discrete = hlevel ℕ_discrete

abbrev QuotaKey-discrete : Discrete QuotaKey
QuotaKey-discrete = hlevel (ℕ_discrete, QuotaMetric-discrete, PeriodKey-discrete)

abbrev key_eq : Eq QuotaKey
key_eq = discrete_eq QuotaKey-discrete

abbrev server : Counters QuotaKey key_eq
server = plain QuotaKey key_eq

-- Every moment lies in one day.
abbrev one_day : Calendar
one_day = record {
  Moment = ℕ;
  date = λ t. (2026, 7, 1);
  tomorrow = λ t. (2026, 7, 2);
  seconds_until = λ d t. 3600;
}

abbrev token_rule : Quota
token_rule = record {
  id = 1;
  scope = user;
  scope_id = none;
  logical_model_id = none;
  period = total;
  metric = tokens;
  limit_value = 1000000000;
  enforce = true;
}

abbrev token_key : QuotaKey
token_key = user_key 7 0 total_key tokens

abbrev empty : Conn server.Store
empty = record { store = (λ k. pos 0, λ k. none); up = [] }

abbrev after_check : Conn server.Store
after_check =
    (check_and_increment key_eq server one_day (λ q. 0) (λ q. 0) 7 none 3 (token_rule ∷ []) 400 none
      empty).1

abbrev booked : QuotaReservation
booked = record {
  key = token_key;
  quota_id = 1;
  metric = tokens;
  scope = user;
  enforce = true;
  limit_value = 1000000000;
  reserved = 400;
}

abbrev passed : QuotaCheckResult
passed = record { passed = true; warnings = []; reservations = booked ∷ [] }

check_passes :
    check_and_increment key_eq server one_day
      (λ q. 0)
      (λ q. 0)
      7
      none
      3
      (token_rule ∷ [])
      400
      none
      empty
    ≡ (ok passed, after_check)
unfolding check_and_increment ◌+ℤ◌ ℕ_discrete planned
check_passes = ap (λ r. (r, after_check)) refl

abbrev settled : Conn server.Store
settled = (settle_reservations key_eq server (booked ∷ []) (pos 250) none after_check).1

settle_passes :
    settle_reservations key_eq server (booked ∷ []) (pos 250) none after_check ≡ (ok tt, settled)
unfolding settle_reservations check_and_increment ◌+ℤ◌ ◌-ℤ◌ ℕ_discrete planned
settle_passes = ap (λ r. (r, settled)) refl

abbrev compensated : Conn server.Store
compensated = (compensate_reservations key_eq server (booked ∷ []) after_check).1

compensate_passes :
    compensate_reservations key_eq server (booked ∷ []) after_check ≡ (ok tt, compensated)
unfolding compensate_reservations check_and_increment ◌+ℤ◌ ◌-ℤ◌ ℕ_discrete planned
compensate_passes = ap (λ r. (r, compensated)) refl

settle-balances_example :
    server.count token_key after_check.store +ℤ server.count token_key settled.store
    ≡ pos 0
      +ℤ server.count token_key after_check.store
      +ℤ used_on key_eq token_key (pos 250) none (booked ∷ [])
settle-balances_example =
    settle-balances key_eq server token_key one_day (λ q. 0) (λ q. 0) 7 none 400 none 3
      (token_rule ∷ []) (pos 250) none empty after_check after_check settled passed check_passes
      settle_passes

compensate-balances_example :
    server.count token_key after_check.store +ℤ server.count token_key compensated.store
    ≡ pos 0 +ℤ server.count token_key after_check.store
compensate-balances_example =
    compensate-balances key_eq server token_key one_day (λ q. 0) (λ q. 0) 7 none 400 none 3
      (token_rule ∷ []) empty after_check after_check compensated passed check_passes
      compensate_passes

check_and_increment-Charged_example :
    Charged key_eq server token_key
      (planned one_day (λ q. 0) 7 none (token_rule ∷ []) 400 none)
      empty.store
      (check_and_increment key_eq server one_day
        (λ q. 0)
        (λ q. 0)
        7
        none
        3
        (token_rule ∷ [])
        400
        none
        empty)
check_and_increment-Charged_example =
    check_and_increment-Charged key_eq server token_key one_day (λ q. 0) (λ q. 0) 7 none 3
      (token_rule ∷ []) 400 none empty

check_and_increment-Refuses_example : Refuses key_eq server (token_rule ∷ []) (
    check_and_increment key_eq server one_day
      (λ q. 0)
      (λ q. 0)
      7
      none
      3
      (token_rule ∷ [])
      1400
      none
      empty)
check_and_increment-Refuses_example =
    check_and_increment-Refuses key_eq server one_day (λ q. 0) (λ q. 0) 7 none 3 (token_rule ∷ [])
      1400 none empty

abbrev token_check : Rule
token_check = record { key = token_key; ttl = 0; limit = 1000; enforce = true; reserve = 400 }

quota_check_script-Within_example :
    All
      (λ r.
        r.enforce ≡ true
        → server.count r.key (quota_check_script key_eq server (token_check ∷ []) empty.store).1
          ≤ℤ pos r.limit)
      (token_check ∷ [])
unfolding quota_check_script ◌+ℤ◌ ℕ_discrete
quota_check_script-Within_example =
    quota_check_script-Within key_eq server (token_check ∷ []) empty.store _ (tt, tt) refl

-- The second rule refuses, so what was added is taken back.
abbrev tight_check : Rule
tight_check = record { key = token_key; ttl = 60; limit = 700; enforce = true; reserve = 400 }

-- The last round trip of the giving back fails.
abbrev shaky : Conn server.Store
shaky = record { store = empty.store; up = true ∷ true ∷ true ∷ false ∷ [] }

run_check_fallback-Concludes_example :
    Concludes key_eq server (λ c. false) (token_check ∷ tight_check ∷ []) shaky
    × ((v : Verdict) × (s' : server.Store) × (run_check_fallback key_eq server
            (λ c. false)
            (token_check ∷ tight_check ∷ [])
            (record { store = empty.store; up = [] })
          ≡ (ok v, record { store = s'; up = [] })))
run_check_fallback-Concludes_example =
    run_check_fallback-Concludes key_eq server (λ c. false) (token_check ∷ tight_check ∷ []) shaky
      empty.store
