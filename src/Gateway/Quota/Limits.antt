-- ===== src/Gateway/Quota/Limits.antt =====
-- Which rule a failing check names, and that a check that passes has kept every enforced limit.
use mathlib.Core.Path.{subst}
use janus_server.Prelude.{
  sym, ℕ, zero, suc, ◌+◌, ◌≡◌, refl, inl, inr, Bool, true, false, ◌&&◌, List, [], ◌∷◌, ◌++◌, map,
  ◌∙◌, arith, All, Eq, Bool-cases,
}
use janus_server.Prelude.Int.{ℤ, pos, ◌<ℤ◌, ◌≤ℤ◌, ltb_ℤ, int_laws}
use janus_server.Core.Redis.Counters.{Counters}
use janus_server.Gateway.Quota.Defs.{QuotaKey}
use janus_server.Gateway.Quota.Script.{
  Rule, Verdict, pass, fail, add_reserve, check_rules, quota_check_script,
}
use janus_server.Gateway.Quota.Ledger.{
  amount_on, booking, Booked, check_rules-Booked, add_reserve_lem,
}

-- The rule at an index of a list is enforced, and the count is above its limit.
abbrev pub Blames : List Rule → ℕ → ℤ → Type 0
Blames [] k n = ⊥
Blames (r ∷ rules) zero n = (r.enforce ≡ true) × (pos r.limit <ℤ n)
Blames (r ∷ rules) (suc k) n = Blames rules k n

-- A failing run names such a rule, behind the i rules that stand before the list.
abbrev pub Explains : ℕ → List Rule → Verdict → Type 0
Explains i rules pass = Unit
Explains i rules (fail k n) = (m : ℕ) × (k ≡ i + m) × Blames rules m n

and_left : (a b : Bool) → a && b ≡ true → a ≡ true
and_left a b h = ground arith

module _ (e : Eq QuotaKey) (redis : Counters QuotaKey e) where
  open redis use {Store, count, incrby, count-incrby}

  check_rules-Explains :
      (i : ℕ) (incremented : List (QuotaKey × ℕ)) (rules : List Rule) (s : Store)
      → Explains i rules (check_rules e redis i incremented rules s).0
  unfolding check_rules
  check_rules-Explains i incremented [] s = tt
  check_rules-Explains i incremented (r ∷ rest) s =
      let n = count r.key (incrby r.key (pos r.reserve) s) in
      elim (Bool-cases (r.enforce && ltb_ℤ (pos r.limit) n)) [
        | inl over ↦ rw over (zero, omega arith, (and_left r.enforce _ over, ground arith))
        | inr within ↦ rw within (
            behind _ (
              check_rules-Explains (i + 1) (incremented ++ (r.key, r.reserve) ∷ []) rest
                (add_reserve e redis r s)))
      ]
    where
      behind : (v : Verdict) → Explains (i + 1) rest v → Explains i (r ∷ rest) v
      behind pass h = tt
      behind (fail k n) (m, same, h) = (suc m, omega arith, h)

  -- No two rules share a counter.
  abbrev pub IsDistinct : List Rule → Type 0
  IsDistinct [] = Unit
  IsDistinct (r ∷ rules) = All (λ q. e.same r.key q.key ≡ false) rules × IsDistinct rules

  abbrev Within : List Rule → Store → Type 0
  Within rules s = All (λ r. r.enforce ≡ true → count r.key s ≤ℤ pos r.limit) rules

  abbrev Keeps : List Rule → Verdict × Store → Type 0
  Keeps rules (pass, s) = Within rules s
  Keeps rules (fail i n, s) = Unit

  amount_on-distinct :
      (r : Rule) (rules : List Rule)
      → All (λ q. e.same r.key q.key ≡ false) rules
      → amount_on e r.key (map booking rules) ≡ pos 0
  amount_on-distinct r [] h = refl
  amount_on-distinct r (q ∷ rules) (ne, h) = rw (ne, amount_on-distinct r rules h) (omega int_laws)

  le_limit :
      (r : Rule) (n : ℤ)
      → r.enforce ≡ true
      → (r.enforce && ltb_ℤ (pos r.limit) n) ≡ false
      → n ≤ℤ pos r.limit
  le_limit r n on within = ground arith

  count-add_reserve :
      (r : Rule) (s : Store)
      → count r.key (incrby r.key (pos r.reserve) s) ≡ count r.key (add_reserve e redis r s)
  count-add_reserve r s =
      count-incrby r.key r.key (pos r.reserve) s ∙ sym (add_reserve_lem e redis r.key r s)

  check_rules-Keeps :
      (i : ℕ) (incremented : List (QuotaKey × ℕ)) (rules : List Rule) (s : Store)
      → IsDistinct rules
      → Keeps rules (check_rules e redis i incremented rules s)
  unfolding check_rules
  check_rules-Keeps i incremented [] s d = tt
  check_rules-Keeps i incremented (r ∷ rest) s (apart, d) =
      let n = count r.key (incrby r.key (pos r.reserve) s) in
      let incremented' = incremented ++ (r.key, r.reserve) ∷ [] in
      elim (Bool-cases (r.enforce && ltb_ℤ (pos r.limit) n)) [
        | inl over ↦ rw over tt
        | inr within ↦ rw within (
            first n (count-add_reserve r s) within _
              (check_rules-Booked e redis r.key (i + 1) incremented' rest (add_reserve e redis r s))
              (check_rules-Keeps (i + 1) incremented' rest (add_reserve e redis r s) d))
      ]
    where
      first :
          (n : ℤ)
          → n ≡ count r.key (add_reserve e redis r s)
          → (r.enforce && ltb_ℤ (pos r.limit) n) ≡ false
          → (o : Verdict × Store)
          → Booked e redis r.key
              (incremented ++ (r.key, r.reserve) ∷ [])
              rest
              (add_reserve e redis r s)
              o
          → Keeps rest o
          → Keeps (r ∷ rest) o
      first n same within (pass, s') b k =
          let unchanged : count r.key s' ≡ n =
            b ∙ rw (amount_on-distinct r rest apart, ← same) (omega int_laws) in
          (λ on. subst (λ n. n ≤ℤ pos r.limit) (sym unchanged) (le_limit r n on within), k)
      first n same within (fail i n', s') b k = tt

  pub quota_check_script-Explains :
      (rules : List Rule) (s : Store) → Explains 0 rules (quota_check_script e redis rules s).0
  unfolding quota_check_script
  quota_check_script-Explains rules s = check_rules-Explains 0 [] rules s

  -- The script passes only with every enforced counter at or below its limit, where no two rules
  -- share a counter.
  pub quota_check_script-Within :
      (rules : List Rule) (s s' : Store)
      → IsDistinct rules
      → quota_check_script e redis rules s ≡ (pass, s')
      → All (λ r. r.enforce ≡ true → count r.key s' ≤ℤ pos r.limit) rules
  unfolding quota_check_script
  quota_check_script-Within rules s s' d h = rw h at (check_rules-Keeps 0 [] rules s d)
