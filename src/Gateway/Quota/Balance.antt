-- ===== src/Gateway/Quota/Balance.antt =====
-- A reservation and its settlement or compensation, whatever happens to the counters in between.
use mathlib.Core.Path.{subst, ap₂}
use janus_server.Prelude.{ℕ, ◌≡◌, Option, List, [], ◌∷◌, map, ◌∙◌, Eq, sym}
use janus_server.Prelude.Int.{ℤ, pos, ◌+ℤ◌, ◌-ℤ◌, int_laws, parts_of_eq}
use janus_server.Core.Redis.{Conn, ok}
use janus_server.Core.Redis.Counters.{Counters, at_key, at_key-zero, at_key-+ℤ}
use janus_server.Gateway.Quota.Defs.{
  Quota, QuotaMetric, tokens, requests, cost, other_metric, QuotaKey, QuotaReservation,
  QuotaCheckResult, Decimal, int_micro,
}
use janus_server.Gateway.Quota.Amounts.{
  Calendar, settlement_adjustment_for_metric, reserve_for_metric, key_for_quota, or_zero,
}
use janus_server.Gateway.Quota.Enforcer.{
  planned, reservation, check_and_increment, settle_reservations, compensate_reservations,
}
use janus_server.Gateway.Quota.Charges.{reserved_on, check_and_increment-Charged}
use janus_server.Gateway.Quota.Settlement.{
  changes_on, adjustment, refund, settle-Changes, compensate-Changes,
}

-- What a request has used, in the units of the counter.
pub used : ℤ → Option Decimal → QuotaMetric → ℤ
used actual_tokens actual_cost requests = pos 1
used actual_tokens actual_cost tokens = actual_tokens
used actual_tokens actual_cost cost = int_micro (or_zero actual_cost)
used actual_tokens actual_cost (other_metric m) = pos 1

-- What is reserved and what the settlement adds is what was used.
adjustment_lem :
    (m : QuotaMetric) (estimated_tokens : ℕ) (estimated_cost : Option Decimal) (actual_tokens : ℤ)
    (actual_cost : Option Decimal)
    → pos (reserve_for_metric m estimated_tokens estimated_cost)
        +ℤ settlement_adjustment_for_metric m
            (reserve_for_metric m estimated_tokens estimated_cost)
            actual_tokens
            actual_cost
      ≡ used actual_tokens actual_cost m
unfolding used reserve_for_metric settlement_adjustment_for_metric
adjustment_lem requests n x t y = omega int_laws
adjustment_lem tokens n x t y = omega int_laws
adjustment_lem cost n x t y = omega int_laws
adjustment_lem (other_metric m) n x t y = omega int_laws

give_back : (n : ℕ) → pos n +ℤ (pos 0 -ℤ pos n) ≡ pos 0
give_back n = omega int_laws

-- Two changes of one counter add up.
both_changes :
    (a b a' b' x y u : ℤ) → a' ≡ a +ℤ x → b' ≡ b +ℤ y → x +ℤ y ≡ u → a' +ℤ b' ≡ a +ℤ b +ℤ u
both_changes a b a' b' x y u p q r = omega (int_laws, parts_of_eq p, parts_of_eq q, parts_of_eq r)

pair_up :
    (e : Eq QuotaKey) (j k : QuotaKey) (a b x y : ℤ)
    → at_key e j k a +ℤ x +ℤ (at_key e j k b +ℤ y) ≡ at_key e j k (a +ℤ b) +ℤ (x +ℤ y)
pair_up e j k a b x y = rw (← at_key-+ℤ e j k a b) (omega int_laws)

module _ (e : Eq QuotaKey) (j : QuotaKey) where
  -- The sum of what was used under each reservation on j.
  abbrev pub used_on : ℤ → Option Decimal → List QuotaReservation → ℤ
  used_on actual_tokens actual_cost [] = pos 0
  used_on actual_tokens actual_cost (r ∷ rs) =
      at_key e j r.key (used actual_tokens actual_cost r.metric)
      +ℤ used_on actual_tokens actual_cost rs

  reserved_on-refund :
      (rs : List QuotaReservation) → reserved_on e j rs +ℤ changes_on e j refund rs ≡ pos 0
  reserved_on-refund [] = omega int_laws
  reserved_on-refund (r ∷ rs) =
      pair_up e j r.key (pos r.reserved) (refund r) (reserved_on e j rs) (changes_on e j refund rs)
      ∙ ap₂ (λ a b. at_key e j r.key a +ℤ b) (give_back r.reserved) (reserved_on-refund rs)
      ∙ rw at_key-zero (omega int_laws)

module _ (e : Eq QuotaKey) (redis : Counters QuotaKey e) (j : QuotaKey) (cal : Calendar)
    (key_time ttl_time : Quota → cal.Moment) (user_id : ℕ) (department_id : Option ℕ)
    (estimated_tokens : ℕ) (estimated_cost : Option Decimal) where
  open redis use {Store, count}

  abbrev reservations : List Quota → List QuotaReservation
  reservations quotas =
      map reservation
        (planned cal key_time user_id department_id quotas estimated_tokens estimated_cost)

  used_on-reservations :
      (quotas : List Quota) (tokens : ℤ) (cost : Option Decimal)
      → reserved_on e j (reservations quotas)
          +ℤ changes_on e j (adjustment tokens cost) (reservations quotas)
        ≡ used_on e j tokens cost (reservations quotas)
  unfolding planned reservation
  used_on-reservations [] t y = omega int_laws
  used_on-reservations (q ∷ quotas) t y =
      let n = reserve_for_metric q.metric estimated_tokens estimated_cost in
      let k = key_for_quota cal user_id department_id q (key_time q) in
      pair_up e j k (pos n) (settlement_adjustment_for_metric q.metric n t y)
        (reserved_on e j (reservations quotas))
        (changes_on e j (adjustment t y) (reservations quotas))
      ∙ ap₂ (λ a b. at_key e j k a +ℤ b)
          (adjustment_lem q.metric estimated_tokens estimated_cost t y)
          (used_on-reservations quotas t y)

  -- The counter over a check that passes and the settlement of its reservations grows by what the
  -- request used, whatever happens between the two.
  pub settle-balances :
      (logical_model_id : ℕ) (quotas : List Quota) (tokens : ℤ) (cost : Option Decimal)
      (c c' d d' : Conn Store) (r : QuotaCheckResult)
      → check_and_increment e redis cal key_time ttl_time user_id department_id logical_model_id
          quotas estimated_tokens estimated_cost c
        ≡ (ok r, c')
      → settle_reservations e redis r.reservations tokens cost d ≡ (ok tt, d')
      → count j c'.store +ℤ count j d'.store
        ≡ count j c.store +ℤ count j d.store +ℤ used_on e j tokens cost r.reservations
  settle-balances m quotas t y c c' d d' r checked settled =
      let (passed, rs, grown) = rw checked at (
        check_and_increment-Charged e redis j cal key_time ttl_time user_id department_id m quotas
          estimated_tokens estimated_cost c) in
      both_changes _ _ _ _ _ _ _ grown
        (rw settled at (settle-Changes e redis j r.reservations t y d))
        (subst (λ rs. reserved_on e j rs +ℤ changes_on e j (adjustment t y) rs ≡ used_on e j t y rs)
          (sym rs) (used_on-reservations quotas t y))

  -- The counter over a check that passes and the compensation of its reservations is unchanged.
  pub compensate-balances :
      (logical_model_id : ℕ) (quotas : List Quota) (c c' d d' : Conn Store) (r : QuotaCheckResult)
      → check_and_increment e redis cal key_time ttl_time user_id department_id logical_model_id
          quotas estimated_tokens estimated_cost c
        ≡ (ok r, c')
      → compensate_reservations e redis r.reservations d ≡ (ok tt, d')
      → count j c'.store +ℤ count j d'.store ≡ count j c.store +ℤ count j d.store
  compensate-balances m quotas c c' d d' r checked returned =
      let (passed, rs, grown) = rw checked at (
        check_and_increment-Charged e redis j cal key_time ttl_time user_id department_id m quotas
          estimated_tokens estimated_cost c) in
      both_changes _ _ _ _ _ _ _ grown
        (rw returned at (compensate-Changes e redis j r.reservations d))
        (reserved_on-refund e j r.reservations)
      ∙ omega int_laws
