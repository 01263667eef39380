-- ===== src/Gateway/Quota/Settlement.antt =====
-- What a settlement and a compensation book, and that they balance what a check has reserved.
use janus_server.Prelude.{
  ℕ, suc, ◌≡◌, inl, inr, Option, List, [], ◌∷◌, arith, ◌==◌, ==_iff, Eq, Bool-cases, take,
}
use janus_server.Prelude.Int.{ℤ, pos, ◌+ℤ◌, ◌-ℤ◌, same_ℤ, int_laws, eq_of_parts}
use janus_server.Core.Redis.{Conn, Client, Result, ok, err, redis_error, raised, continue, ◌>>=◌}
use janus_server.Core.Redis.Counters.{Counters, at_key, at_key-zero}
use janus_server.Core.Redis.Rules.{command-post}
use janus_server.Gateway.Quota.Defs.{QuotaKey, QuotaReservation, QuotaError, Decimal}
use janus_server.Gateway.Quota.Amounts.{settlement_adjustment_for_metric}
use janus_server.Gateway.Quota.Enforcer.{
  settle_reservations, compensate_reservations, get_count, reply_incrby,
}

-- The sum of what each reservation on j is to be changed by.
abbrev pub changes_on : Eq QuotaKey → QuotaKey → (QuotaReservation → ℤ) → List QuotaReservation → ℤ
changes_on e j change [] = pos 0
changes_on e j change (r ∷ rs) = at_key e j r.key (change r) +ℤ changes_on e j change rs

abbrev pub adjustment : ℤ → Option Decimal → QuotaReservation → ℤ
adjustment actual_tokens actual_cost r =
    settlement_adjustment_for_metric r.metric r.reserved actual_tokens actual_cost

abbrev pub refund : QuotaReservation → ℤ
refund r = pos 0 -ℤ pos r.reserved

module _ (e : Eq QuotaKey) (redis : Counters QuotaKey e) (j : QuotaKey) where
  open redis use {Store, count, incrby, count-incrby}

  -- All changes are made; or a round trip failed, and those of some first reservations are.
  abbrev pub Changes :
      (QuotaReservation → ℤ)
      → List QuotaReservation
      → Store
      → Result QuotaError (Unit {0}) × Conn Store
      → Type 0
  Changes change rs s (ok _, c) = count j c.store ≡ count j s +ℤ changes_on e j change rs
  Changes change rs s (err redis_error, c) =
      (k : ℕ) × (count j c.store ≡ count j s +ℤ changes_on e j change (take k rs))
  Changes change rs s (err (raised x), c) = ⊥

  module _ (change : QuotaReservation → ℤ) (r : QuotaReservation) (rs : List QuotaReservation) where
    -- One reservation more, which is booked before the others are.
    Changes-more :
        (s s' : Store) (o : Result QuotaError (Unit {0}) × Conn Store)
        → count j s' ≡ count j s +ℤ at_key e j r.key (change r)
        → Changes change rs s' o
        → Changes change (r ∷ rs) s o
    Changes-more s s' (ok _, c) first h = rw (h, first) (omega int_laws)
    Changes-more s s' (err redis_error, c) first (k, h) = (suc k, rw (h, first) (omega int_laws))
    Changes-more s s' (err (raised x), c) first h = h

    -- A change of 0 is skipped.
    Changes-skip :
        (s : Store) (o : Result QuotaError (Unit {0}) × Conn Store)
        → change r ≡ pos 0
        → Changes change rs s o
        → Changes change (r ∷ rs) s o
    Changes-skip s o none_due h =
        Changes-more s s o (rw (none_due, at_key-zero e j r.key) (omega int_laws)) h

    -- A change in one round trip, and what follows it.
    Changes-incrby :
        (next : ℤ → Client Store QuotaError (Unit {0})) (c : Conn Store)
        → ((n : ℤ) (c' : Conn Store) → Changes change rs c'.store (next n c'))
        → Changes change (r ∷ rs) c.store ((reply_incrby e redis r.key (change r) >>= next) c)
    Changes-incrby next c rest =
        command-post (λ o. Changes change (r ∷ rs) c.store (continue o.0 next o.1))
          (λ s. let s' = incrby r.key (change r) s in (count r.key s', s')) c
          (λ up.
            let c' : Conn Store = record { store = incrby r.key (change r) c.store; up = up } in
            Changes-more c.store c'.store (next (count r.key c'.store) c')
              (count-incrby j r.key (change r) c.store) (rest _ c'))
          (λ up. (0, omega int_laws))

  -- The GET behind a change books nothing.
  Changes-get :
      (change : QuotaReservation → ℤ) (rs : List QuotaReservation) (k : QuotaKey)
      (next : Client Store QuotaError (Unit {0})) (c : Conn Store)
      → ((c' : Conn Store) → Changes change rs c'.store (next c'))
      → Changes change rs c.store ((get_count e redis k >>= λ _. next) c)
  Changes-get change rs k next c rest =
      command-post (λ o. Changes change rs c.store (continue o.0 (λ _. next) o.1))
        (λ s. (count k s, s)) c (λ up. rest (record { store = c.store; up = up }))
        (λ up. (0, omega int_laws))

  pub settle-Changes :
      (rs : List QuotaReservation) (tokens : ℤ) (cost : Option Decimal) (c : Conn Store)
      → Changes (adjustment tokens cost) rs c.store (settle_reservations e redis rs tokens cost c)
  unfolding settle_reservations
  settle-Changes [] tokens cost c = omega int_laws
  settle-Changes (r ∷ rs) tokens cost c =
      elim (Bool-cases (same_ℤ (adjustment tokens cost r) (pos 0))) [
        | inl same ↦ rw same (
            Changes-skip (adjustment tokens cost) r rs c.store
              (settle_reservations e redis rs tokens cost c) (eq_of_parts _ _ (ground arith))
              (settle-Changes rs tokens cost c))
        | inr other ↦ rw other (
            Changes-incrby (adjustment tokens cost) r rs _ c (λ n c'.
              Changes-get (adjustment tokens cost) rs r.key _ c'
                (λ c''. settle-Changes rs tokens cost c'')))
      ]

  pub compensate-Changes :
      (rs : List QuotaReservation) (c : Conn Store)
      → Changes refund rs c.store (compensate_reservations e redis rs c)
  unfolding compensate_reservations
  compensate-Changes [] c = omega int_laws
  compensate-Changes (r ∷ rs) c = elim (Bool-cases (r.reserved == 0)) [
    | inl same ↦ rw same (
        Changes-skip refund r rs c.store (compensate_reservations e redis rs c)
          (eq_of_parts _ _ (omega (int_laws, (==_iff r.reserved 0).0 same)))
          (compensate-Changes rs c))
    | inr other ↦ rw other (Changes-incrby refund r rs _ c (λ n c'. compensate-Changes rs c'))
  ]
