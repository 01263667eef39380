-- ===== src/Gateway/Quota/Verdicts.antt =====
-- src/gateway/quota.py: the quota check without a script, next to the script.
use mathlib.Core.Path.{subst}
use janus_server.Prelude.{
  ℕ, ◌+◌, ◌≡◌, refl, sym, ap, Bool, true, false, ◌&&◌, List, [], ◌∷◌, ◌++◌, map, ◌∙◌, ltb, Eq,
  if◌then◌else◌,
}
use mathlib.Core.List.{append_assoc, append-nil}
use janus_server.Prelude.Int.{ℤ, pos, ltb_ℤ, same_ℤ, int_laws}
use janus_server.Core.Redis.{Conn, Result, ok, err, pure, late_command, ◌>>◌}
use janus_server.Core.Redis.Rules.{late_command-post, bind-post}
use janus_server.Core.Redis.Counters.{Counters}
use janus_server.Gateway.Quota.Defs.{QuotaKey, QuotaError}
use janus_server.Gateway.Quota.Script.{
  Rule, Verdict, fail, roll_back, add_reserve, check_rules, quota_check_script,
}
use janus_server.Gateway.Quota.Ledger.{booking}
use janus_server.Gateway.Quota.Fallback.{
  increment, expire_new, take_back, judge, fallback_rules, run_check_fallback,
}
use janus_server.Gateway.Quota.Returning.{Returns, fallback_rules-Returns}
use janus_server.Gateway.Quota.Unscripted.{
  SameCells, SameCells-refl, Holds, Partial, booked_more, Given, take_back-Given,
}

module _ (e : Eq QuotaKey) (redis : Counters QuotaKey e) (ran : Conn redis.Store → Bool) where
  open redis use {Store, count, incrby, expire, count-expire}

  module _ (s0 : Store) where
    -- An answer is that of t; an error leaves a part of the bookings.
    abbrev pub Ends :
        Verdict × Store → List (QuotaKey × ℕ) → Result QuotaError Verdict × Conn Store → Type 0
    Ends t bookings (ok v, c) = (v ≡ t.0) × SameCells e redis ran c.store t.1
    Ends t bookings (err x, c) = Partial e redis ran s0 bookings c.store

    module _ (i : ℕ) (inc : List (QuotaKey × ℕ)) (r : Rule) (rest : List Rule) (s : Store)
        (h : Holds e redis ran s0 inc s) where
      abbrev All_booked : List (QuotaKey × ℕ)
      All_booked = inc ++ map booking (r ∷ rest)

      abbrev inc_next : List (QuotaKey × ℕ)
      inc_next = inc ++ (r.key, r.reserve) ∷ []

      abbrev s1 : Store
      s1 = incrby r.key (pos r.reserve) s

      extended :
          (s' : Store) → Partial e redis ran s0 inc_next s' → Partial e redis ran s0 All_booked s'
      extended s' p = record {
        back = p.back;
        kept = p.kept;
        later = p.later ++ map booking rest;
        whole =
            ap (λ l. p.back ++ l) (sym (append_assoc p.kept p.later (map booking rest)))
            ∙ sym (append_assoc p.back (p.kept ++ p.later) (map booking rest))
            ∙ ap (λ l. l ++ map booking rest) p.whole
            ∙ append_assoc inc ((r.key, r.reserve) ∷ []) (map booking rest);
        holds = p.holds;
      }

      next_booked :
          (s' : Store) → Holds e redis ran s0 inc_next s' → Partial e redis ran s0 All_booked s'
      next_booked s' k = extended s' (record {
        back = [];
        kept = inc_next;
        later = [];
        whole = append-nil inc_next;
        holds = k;
      })

      abbrev Incremented : Result QuotaError ℤ × Conn Store → Type 0
      Incremented (ok n, c) = (n ≡ count r.key s1) × (c.store ≡ s1)
      Incremented (err x, c) = Partial e redis ran s0 All_booked c.store

      increment-Incremented :
          (c : Conn Store)
          → c.store ≡ s
          → Incremented (increment e redis ran r.key (pos r.reserve) c)
      increment-Incremented c q =
          late_command-post Incremented ran
            (λ s. (count r.key (incrby r.key (pos r.reserve) s), incrby r.key (pos r.reserve) s)) c
            (λ up. (
              ap (λ s. count r.key (incrby r.key (pos r.reserve) s)) q,
              ap (incrby r.key (pos r.reserve)) q,
            ))
            (λ up. subst (Partial e redis ran s0 All_booked) (sym q) (record {
              back = [];
              kept = inc;
              later = map booking (r ∷ rest);
              whole = refl;
              holds = h;
            }))
            (λ up served. next_booked _ (
              subst (Holds e redis ran s0 inc_next) (sym (ap (incrby r.key (pos r.reserve)) q))
                (booked_more e redis ran s0 inc r.key r.reserve s h)))

      abbrev Reserved : Result QuotaError (Unit {0}) × Conn Store → Type 0
      Reserved (ok u, c) = c.store ≡ add_reserve e redis r s
      Reserved (err x, c) = Partial e redis ran s0 All_booked c.store

      s1_holds : Holds e redis ran s0 inc_next s1
      s1_holds = booked_more e redis ran s0 inc r.key r.reserve s h

      expired_holds : Holds e redis ran s0 inc_next (expire r.key r.ttl s1)
      expired_holds j = count-expire j r.key r.ttl s1 ∙ s1_holds j

      expire_new-Reserved :
          (c : Conn Store) → c.store ≡ s1 → Reserved (expire_new e redis ran r (count r.key s1) c)
      unfolding add_reserve
      expire_new-Reserved c q = go (same_ℤ (count r.key s1) (pos r.reserve) && ltb 0 r.ttl)
        where
          Here : Bool → Result QuotaError (Unit {0}) × Conn Store → Type 0
          Here b (ok u, c') = c'.store ≡ (if b then expire r.key r.ttl s1 else s1)
          Here b (err x, c') = Partial e redis ran s0 All_booked c'.store

          go :
              (b : Bool)
              → Here b
                  ((if b then late_command ran (λ s. (tt, expire r.key r.ttl s)) else pure tt) c)
          go true =
              late_command-post (Here true) ran (λ s. (tt, expire r.key r.ttl s)) c
                (λ up. ap (expire r.key r.ttl) q)
                (λ up. subst (Partial e redis ran s0 All_booked) (sym q) (next_booked s1 s1_holds))
                (λ up served.
                  subst (Partial e redis ran s0 All_booked) (sym (ap (expire r.key r.ttl) q))
                    (next_booked (expire r.key r.ttl s1) expired_holds))
          go false = q

      reserved_holds : Holds e redis ran s0 inc_next (add_reserve e redis r s)
      unfolding add_reserve
      reserved_holds = go (same_ℤ (count r.key s1) (pos r.reserve) && ltb 0 r.ttl)
        where
          go : (b : Bool) → Holds e redis ran s0 inc_next (if b then expire r.key r.ttl s1 else s1)
          go true = expired_holds
          go false = s1_holds

      check_over :
          (r.enforce && ltb_ℤ (pos r.limit) (count r.key s1)) ≡ true
          → check_rules e redis i inc (r ∷ rest) s
            ≡ (fail i (count r.key s1), roll_back e redis inc_next (add_reserve e redis r s))
      unfolding check_rules
      check_over over = rw over refl

      check_within :
          (r.enforce && ltb_ℤ (pos r.limit) (count r.key s1)) ≡ false
          → check_rules e redis i inc (r ∷ rest) s
            ≡ check_rules e redis (i + 1) inc_next rest (add_reserve e redis r s)
      unfolding check_rules
      check_within within = rw within refl

      refused-Ends :
          (c : Conn Store)
          → c.store ≡ add_reserve e redis r s
          → Ends
              (fail i (count r.key s1), roll_back e redis inc_next (add_reserve e redis r s))
              All_booked
              ((take_back e redis ran inc_next >> pure (fail i (count r.key s1))) c)
      refused-Ends c q =
          bind-post (Given e redis ran s0 inc_next (add_reserve e redis r s))
            (Ends (fail i (count r.key s1), roll_back e redis inc_next (add_reserve e redis r s))
              All_booked)
            (take_back e redis ran inc_next) (λ _. pure (fail i (count r.key s1))) c
            (take_back-Given e redis ran s0 inc_next (add_reserve e redis r s) c
              (subst (λ t. SameCells e redis ran t (add_reserve e redis r s)) (sym q)
                (SameCells-refl e redis ran (add_reserve e redis r s)))
              (subst (Holds e redis ran s0 inc_next) (sym q) reserved_holds))
            (λ u c' same. (refl, same)) (λ x c' p. extended c'.store p)

      judge-Ends :
          (c : Conn Store)
          → c.store ≡ add_reserve e redis r s
          → Ends
              (check_rules e redis (i + 1) inc_next rest (add_reserve e redis r s))
              (inc_next ++ map booking rest)
              (fallback_rules e redis ran (i + 1) inc_next rest c)
          → Ends (check_rules e redis i inc (r ∷ rest) s) All_booked (
              judge e redis ran i r
                (count r.key s1)
                inc_next
                (fallback_rules e redis ran (i + 1) inc_next rest)
                c)
      judge-Ends c q ih = go _ refl
        where
          go :
              (b : Bool)
              → (r.enforce && ltb_ℤ (pos r.limit) (count r.key s1)) ≡ b
              → Ends (check_rules e redis i inc (r ∷ rest) s) All_booked (
                  (if b
                      then take_back e redis ran inc_next >> pure (fail i (count r.key s1))
                      else fallback_rules e redis ran (i + 1) inc_next rest)
                    c)
          go true over =
              subst
                (λ t.
                  Ends t All_booked
                    ((take_back e redis ran inc_next >> pure (fail i (count r.key s1))) c))
                (sym (check_over over)) (refused-Ends c q)
          go false within =
              subst (λ t. Ends t All_booked (fallback_rules e redis ran (i + 1) inc_next rest c))
                (sym (check_within within))
                (subst
                  (λ l.
                    Ends (check_rules e redis (i + 1) inc_next rest (add_reserve e redis r s)) l
                      (fallback_rules e redis ran (i + 1) inc_next rest c))
                  (append_assoc inc ((r.key, r.reserve) ∷ []) (map booking rest)) ih)

    fallback_rules-Ends :
        (i : ℕ) (inc : List (QuotaKey × ℕ)) (rules : List Rule) (s : Store) (c : Conn Store)
        → c.store ≡ s
        → Holds e redis ran s0 inc s
        → Ends
            (check_rules e redis i inc rules s)
            (inc ++ map booking rules)
            (fallback_rules e redis ran i inc rules c)
    unfolding fallback_rules check_rules
    fallback_rules-Ends i inc [] s c q h =
        (refl, subst (λ t. SameCells e redis ran t s) (sym q) (SameCells-refl e redis ran s))
    fallback_rules-Ends i inc (r ∷ rest) s c q h =
        let inc' = inc ++ (r.key, r.reserve) ∷ [] in
        let goal = Ends (check_rules e redis i inc (r ∷ rest) s) (inc ++ map booking (r ∷ rest)) in
        bind-post (Incremented i inc r rest s h) goal (increment e redis ran r.key (pos r.reserve))
          _ c (increment-Incremented i inc r rest s h c q)
          (λ n c' (same, q').
            subst
              (λ n. goal (
                (expire_new e redis ran r n
                    >> judge e redis ran i r n inc' (fallback_rules e redis ran (i + 1) inc' rest))
                  c'))
              (sym same)
              (bind-post (Reserved i inc r rest s h) goal
                (expire_new e redis ran r (count r.key (incrby r.key (pos r.reserve) s))) _ c'
                (expire_new-Reserved i inc r rest s h c' q')
                (λ u c'' q''. judge-Ends i inc r rest s h c'' q'' (
                  fallback_rules-Ends (i + 1) inc' rest (add_reserve e redis r s) c'' q''
                    (reserved_holds i inc r rest s h)))
                (λ x c'' p. p)))
          (λ x c' p. p)

  -- How the check without a script ends, next to the script on the same store.
  abbrev pub Concludes : List Rule → Conn Store → Type 0
  Concludes rules c =
      Ends c.store (quota_check_script e redis rules c.store) (map booking rules)
        (run_check_fallback e redis ran rules c)

  -- While no other client is served in between, a check without a script that answers gives the
  -- verdict of the script, and leaves every counter and every expiry as the script does, also where
  -- it takes back. If it raises, then one connected part of the reservations stays booked, which may
  -- be none or all. Where no round trip fails, it answers.
  pub run_check_fallback-Concludes :
      (rules : List Rule) (c : Conn Store) (s : Store)
      → Concludes rules c
        × ((v : Verdict) × (s' : Store) × (run_check_fallback e redis ran rules
                (record { store = s; up = [] })
              ≡ (ok v, record { store = s'; up = [] })))
  unfolding run_check_fallback quota_check_script Returns
  run_check_fallback-Concludes rules c s = (
    fallback_rules-Ends c.store 0 [] rules c.store c refl (λ j. omega int_laws),
    fallback_rules-Returns e redis ran 0 [] rules s,
  )
