-- ===== src/Gateway/Quota/Charges.antt =====
-- What a check, a settlement and a compensation do to every counter, whichever round trips fail.
use mathlib.Core.Path.{subst}
use janus_server.Prelude.{
  ℕ, zero, suc, ◌≡◌, refl, ◌⊎◌, inl, inr, true, List, [], ◌∷◌, map, ◌∙◌, Eq, Option, ap,
}
use janus_server.Prelude.Int.{ℤ, ◌+ℤ◌, int_laws}
use janus_server.Core.Redis.{Conn, Result, Fault, ok, err, redis_error, raised, continue}
use janus_server.Core.Redis.Counters.{Counters}
use janus_server.Core.Redis.Rules.{command-post, bind-post}
use janus_server.Gateway.Quota.Defs.{
  Quota, QuotaKey, QuotaReservation, QuotaCheckResult, QuotaError, QuotaWarning, Decimal,
}
use janus_server.Gateway.Quota.Amounts.{Calendar}
use janus_server.Gateway.Quota.Script.{Verdict, pass, fail, quota_check_script}
use janus_server.Gateway.Quota.Enforcer.{
  Planned, planned, check_and_increment, reservation, rule, run_check, after_script, exceeded_at,
  collect_warnings, get_count,
}
use janus_server.Gateway.Quota.Ledger.{amount_on, Booked, booking, quota_check_script-Booked}

-- What a list of reservations holds on the key j.
abbrev pub reserved_on : Eq QuotaKey → QuotaKey → List QuotaReservation → ℤ
reserved_on e j rs = amount_on e j (map (λ r. (r.key, r.reserved)) rs)

module _ (e : Eq QuotaKey) (redis : Counters QuotaKey e) where
  open redis use {Store, count, incrby, count-incrby}

  -- The store is as it was, and what may have been raised is a RedisError.
  abbrev pub Reads : {A : Type 0} → Store → Result QuotaError A × Conn Store → Type 0
  Reads s (ok a, c) = c.store ≡ s
  Reads s (err redis_error, c) = c.store ≡ s
  Reads s (err (raised x), c) = ⊥

  pub collect_warnings-Reads :
      (l : List (QuotaKey × Quota)) (c : Conn Store) → Reads c.store (collect_warnings e redis l c)
  unfolding collect_warnings
  collect_warnings-Reads [] c = refl
  collect_warnings-Reads ((k, q) ∷ l) c =
      bind-post (Reads c.store) (Reads c.store) (get_count e redis k) _ c
        (command-post (Reads c.store) (λ s. (count k s, s)) c (λ up. refl) (λ up. refl))
        (λ n c' h.
          bind-post (Reads c.store) (Reads c.store) (collect_warnings e redis l) _ c'
            (subst (λ s. Reads s (collect_warnings e redis l c')) h (collect_warnings-Reads l c'))
            (λ ws c'' h'. h') (λ x c'' h'. h'))
        (λ x c' h. h)

  module _ (j : QuotaKey) where
    -- What one run of `check_and_increment` on a plan has booked on j, by how it ended: the
    -- reservations that it returns; nothing, if it found a limit exceeded; and if a round trip
    -- failed, nothing or the whole plan.
    abbrev pub Charged :
        List Planned → Store → Result QuotaError QuotaCheckResult × Conn Store → Type 0
    Charged plan s (ok r, c) =
        (r.passed ≡ true)
        × (r.reservations ≡ map reservation plan)
        × (count j c.store ≡ count j s +ℤ reserved_on e j r.reservations)
    Charged plan s (err (raised x), c) = count j c.store ≡ count j s
    Charged plan s (err redis_error, c) =
        (count j c.store ≡ count j s)
        ⊎ (count j c.store ≡ count j s +ℤ reserved_on e j (map reservation plan))

    reserved_on-plan :
        (ttl : Quota → ℕ) (plan : List Planned)
        → amount_on e j (map booking (map (rule ttl) plan)) ≡ reserved_on e j (map reservation plan)
    unfolding rule reservation
    reserved_on-plan ttl [] = refl
    reserved_on-plan ttl (p ∷ plan) = rw (reserved_on-plan ttl plan)

    exceeded_at-Charged :
        (plan : List Planned) (quotas : List Quota) (i : ℕ) (n : ℤ) (s : Store) (c : Conn Store)
        → count j c.store ≡ count j s
        → Charged plan s (exceeded_at e redis quotas i n c)
    unfolding exceeded_at
    exceeded_at-Charged plan [] i n s c h = h
    exceeded_at-Charged plan (q ∷ quotas) zero n s c h = h
    exceeded_at-Charged plan (q ∷ quotas) (suc i) n s c h =
        exceeded_at-Charged plan quotas i n s c h

    after_script-Charged :
        (ttl : Quota → ℕ) (plan : List Planned) (s : Store) (v : Verdict) (c : Conn Store)
        → Booked e redis j [] (map (rule ttl) plan) s (v, c.store)
        → Charged plan s (after_script e redis plan v c)
    unfolding after_script
    after_script-Charged ttl plan s (fail i n) c h =
        exceeded_at-Charged plan (map (λ p. p.quota) plan) i n s c (rw h (omega int_laws))
    after_script-Charged ttl plan s pass c h =
        let booked : count j c.store ≡ count j s +ℤ reserved_on e j (map reservation plan) =
          h ∙ ap (λ a. count j s +ℤ a) (reserved_on-plan ttl plan) in
        bind-post (Reads c.store) (Charged plan s)
          (collect_warnings e redis (map (λ p. (p.key, p.quota)) plan)) _ c
          (collect_warnings-Reads _ c) (λ ws c' same. (refl, refl, rw same booked)) (leak booked)
      where
        leak :
            (count j c.store ≡ count j s +ℤ reserved_on e j (map reservation plan))
            → (x : Fault QuotaError) (c' : Conn Store)
            → Reads {A = List QuotaWarning} c.store (err x, c')
            → Charged plan s (err x, c')
        leak booked redis_error c' same = inr (rw same booked)
        leak booked (raised x) c' same = absurd same

    pub run_check-Charged :
        (ttl : Quota → ℕ) (plan : List Planned) (c : Conn Store)
        → Charged plan c.store (run_check e redis ttl plan c)
    unfolding run_check
    run_check-Charged ttl [] c = (refl, refl, omega int_laws)
    run_check-Charged ttl (p ∷ plan) c =
        let rules = map (rule ttl) (p ∷ plan) in
        command-post
          (λ o. Charged (p ∷ plan) c.store (continue o.0 (after_script e redis (p ∷ plan)) o.1))
          (quota_check_script e redis rules) c
          (λ up.
            after_script-Charged ttl (p ∷ plan) c.store (quota_check_script e redis rules c.store).0
              (record { store = (quota_check_script e redis rules c.store).1; up = up })
              (quota_check_script-Booked e redis j rules c.store))
          (λ up. inl refl)

    module _ (cal : Calendar) (key_time ttl_time : Quota → cal.Moment) where
      -- What the enforcer has booked on a key when `check_and_increment` ends: exactly the
      -- reservations that it returns; nothing, if it raises QuotaLimitExceeded; and if it raises
      -- RedisError, nothing or the reservation of every rule.
      pub check_and_increment-Charged :
          (user_id : ℕ) (department_id : Option ℕ) (logical_model_id : ℕ) (quotas : List Quota)
          (estimated_tokens : ℕ) (estimated_cost : Option Decimal) (c : Conn Store)
          → Charged
              (planned cal key_time user_id department_id quotas estimated_tokens estimated_cost)
              c.store
              (check_and_increment e redis cal key_time ttl_time user_id department_id
                logical_model_id quotas estimated_tokens estimated_cost c)
      unfolding check_and_increment
      check_and_increment-Charged user_id department_id logical_model_id quotas estimated_tokens
            estimated_cost =
          run_check-Charged _
            (planned cal key_time user_id department_id quotas estimated_tokens estimated_cost)
