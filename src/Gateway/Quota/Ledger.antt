-- ===== src/Gateway/Quota/Ledger.antt =====
-- What the operations of the enforcer book on the counters, key by key.
use janus_server.Prelude.{
  ℕ, ◌+◌, ◌≡◌, inl, inr, ◌&&◌, List, [], ◌∷◌, ◌++◌, map, ◌∙◌, arith, Eq, Bool-cases,
}
use janus_server.Prelude.Int.{ℤ, pos, ◌+ℤ◌, ◌-ℤ◌, ltb_ℤ, int_laws}
use janus_server.Core.Redis.Counters.{Counters, at_key}
use janus_server.Gateway.Quota.Defs.{QuotaKey}
use janus_server.Gateway.Quota.Script.{
  Rule, Verdict, pass, fail, roll_back, add_reserve, check_rules, quota_check_script,
}

-- The sum of the amounts that a list books on the key j.
abbrev pub amount_on : Eq QuotaKey → QuotaKey → List (QuotaKey × ℕ) → ℤ
amount_on e j [] = pos 0
amount_on e j ((k, a) ∷ rest) = at_key e j k (pos a) +ℤ amount_on e j rest

pub amount_on-append :
    (e : Eq QuotaKey) (j : QuotaKey) (xs ys : List (QuotaKey × ℕ))
    → amount_on e j (xs ++ ys) ≡ amount_on e j xs +ℤ amount_on e j ys
amount_on-append e j [] ys = omega int_laws
amount_on-append e j ((k, a) ∷ xs) ys = rw (amount_on-append e j xs ys) (omega int_laws)

abbrev pub booking : Rule → QuotaKey × ℕ
booking r = (r.key, r.reserve)

module _ (e : Eq QuotaKey) (redis : Counters QuotaKey e) (j : QuotaKey) where
  open redis use {Store, count, incrby, decrby, expire, count-incrby, count-decrby, count-expire}

  roll_back_lem :
      (l : List (QuotaKey × ℕ)) (s : Store)
      → count j (roll_back e redis l s) ≡ count j s -ℤ amount_on e j l
  unfolding roll_back
  roll_back_lem [] s = omega int_laws
  roll_back_lem ((k, a) ∷ l) s =
      rw (roll_back_lem l (decrby k (pos a) s), count-decrby j k (pos a) s) (omega int_laws)

  pub add_reserve_lem :
      (r : Rule) (s : Store)
      → count j (add_reserve e redis r s) ≡ count j s +ℤ at_key e j r.key (pos r.reserve)
  unfolding add_reserve
  add_reserve_lem r s = ground (
    arith,
    count-incrby j r.key (pos r.reserve) s,
    count-expire j r.key r.ttl (incrby r.key (pos r.reserve) s),
  )

  -- After a pass every rule is booked; after a failure nothing is, what was booked before included.
  abbrev pub Booked : List (QuotaKey × ℕ) → List Rule → Store → Verdict × Store → Type 0
  Booked incremented rules s (pass, s') =
      count j s' ≡ count j s +ℤ amount_on e j (map booking rules)
  Booked incremented rules s (fail i n, s') = count j s' ≡ count j s -ℤ amount_on e j incremented

  -- A rule that is added and taken back with those before it leaves their amount to take back.
  undo :
      (incremented : List (QuotaKey × ℕ)) (r : Rule) (s : Store)
      → count j (add_reserve e redis r s) -ℤ amount_on e j (incremented ++ booking r ∷ [])
        ≡ count j s -ℤ amount_on e j incremented
  undo incremented r s =
      rw (add_reserve_lem r s, amount_on-append e j incremented (booking r ∷ [])) (omega int_laws)

  add_up :
      (incremented : List (QuotaKey × ℕ)) (r : Rule) (rest : List Rule) (s : Store)
      (o : Verdict × Store)
      → Booked (incremented ++ booking r ∷ []) rest (add_reserve e redis r s) o
      → Booked incremented (r ∷ rest) s o
  add_up incremented r rest s (pass, s') h = rw (h, add_reserve_lem r s) (omega int_laws)
  add_up incremented r rest s (fail i n, s') h = h ∙ undo incremented r s

  pub check_rules-Booked :
      (i : ℕ) (incremented : List (QuotaKey × ℕ)) (rules : List Rule) (s : Store)
      → Booked incremented rules s (check_rules e redis i incremented rules s)
  unfolding check_rules
  check_rules-Booked i incremented [] s = omega int_laws
  check_rules-Booked i incremented (r ∷ rest) s =
      let n = count r.key (incrby r.key (pos r.reserve) s) in
      elim (Bool-cases (r.enforce && ltb_ℤ (pos r.limit) n)) [
        | inl over ↦ rw over (
            roll_back_lem (incremented ++ booking r ∷ []) (add_reserve e redis r s)
            ∙ undo incremented r s)
        | inr within ↦ rw within (
            add_up incremented r rest s _ (
              check_rules-Booked (i + 1) (incremented ++ booking r ∷ []) rest
                (add_reserve e redis r s)))
      ]

  -- The script books every rule, or none.
  pub quota_check_script-Booked :
      (rules : List Rule) (s : Store) → Booked [] rules s (quota_check_script e redis rules s)
  unfolding quota_check_script
  quota_check_script-Booked rules s = check_rules-Booked 0 [] rules s
