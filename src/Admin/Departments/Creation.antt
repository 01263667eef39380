-- ===== src/Admin/Departments/Creation.antt =====
-- A new department in the forest.
use mathlib.Core.Path.{subst}
use janus_server.Prelude.{
  ap, ℕ, zero, suc, ◌≡◌, ◌≢◌, refl, sym, ◌∙◌, inl, inr, true, false, Option, none, some, List, ◌∷◌,
  ◌==◌, ==_iff, Bool-cases, if◌then◌else◌, arith,
}
use janus_server.Admin.Departments.{
  Department, DepartmentCreate, Reply, done, refused, exists_in, parent_of, create_department,
}
use janus_server.Admin.Departments.Trees.{Rooted, Avoids, Rooted-kept}
use janus_server.Admin.Departments.Handlers.{IsForest}
use janus_server.Admin.Departments.Forest.{move_IsForest, ne_of}

-- No chain of a forest meets an id that is in no row.
fresh-Avoids :
    (ds : List Department) (d : ℕ)
    → IsForest ds
    → exists_in d ds ≡ false
    → (n x : ℕ) → exists_in x ds ≡ true
    → Avoids (parent_of ds) d n x
fresh-Avoids ds d forest fresh zero x there = λ same. apart (ap (λ t. exists_in t ds) same)
  where
    apart : exists_in x ds ≡ exists_in d ds → ⊥
    apart e = cc
fresh-Avoids ds d forest fresh (suc n) x there = (
  λ same. apart (ap (λ t. exists_in t ds) same),
  λ y e. fresh-Avoids ds d forest fresh n y (forest.closed x y e),
)
  where
    apart : exists_in x ds ≡ exists_in d ds → ⊥
    apart e = cc

module _ (row : Department) (ds : List Department) where
  added_other : (x : ℕ) → x ≢ row.id → parent_of (row ∷ ds) x ≡ parent_of ds x
  unfolding parent_of
  added_other x ne = ground arith

  added_self : parent_of (row ∷ ds) row.id ≡ row.parent_id
  unfolding parent_of
  added_self = rw ((==_iff row.id row.id).1 refl) refl

  exists_in-added : (x : ℕ) → exists_in x ds ≡ true → exists_in x (row ∷ ds) ≡ true
  unfolding exists_in
  exists_in-added x h = ground arith

  added_IsForest :
      IsForest ds
      → exists_in row.id ds ≡ false
      → ((p : ℕ) → row.parent_id ≡ some p → exists_in p ds ≡ true)
      → IsForest (row ∷ ds)
  added_IsForest forest fresh parent =
      move_IsForest ds (row ∷ ds) row.id forest added_other closed (chain row.parent_id refl)
    where
      closed : (x y : ℕ) → parent_of (row ∷ ds) x ≡ some y → exists_in y (row ∷ ds) ≡ true
      closed x y e = exists_in-added y (elim (Bool-cases (x == row.id)) [
        | inl self ↦
            parent y
              (sym added_self ∙ sym (ap (parent_of (row ∷ ds)) ((==_iff x row.id).0 self)) ∙ e)
        | inr other ↦ forest.closed x y (sym (added_other x (ne_of x row.id other)) ∙ e)
      ])

      chain : (o : Option ℕ) → row.parent_id ≡ o → (m : ℕ) × Rooted (parent_of (row ∷ ds)) m row.id
      chain none e = (0, added_self ∙ e)
      chain (some p) e =
          let (n, r) = forest.rooted p in
          (
            suc n,
            (
              p,
              added_self ∙ e,
              Rooted-kept (parent_of ds) (parent_of (row ∷ ds)) row.id added_other n p r
                  (fresh-Avoids ds row.id forest fresh n p (parent p e)),
            ),
          )

-- A creation under an id that no row has keeps the departments a forest.
pub create_department-IsForest :
    (actor new_id : ℕ) (payload : DepartmentCreate) (ds ds' : List Department)
    → IsForest ds
    → exists_in new_id ds ≡ false
    → create_department actor new_id payload ds ≡ done ds'
    → IsForest ds'
unfolding create_department
create_department-IsForest actor new_id payload ds ds' forest fresh h = go payload.parent_id refl h
  where
    row : Department
    row = record {
      id = new_id;
      name = payload.name;
      parent_id = payload.parent_id;
      sort_order = payload.sort_order;
      remark = payload.remark;
      updated_by = actor;
    }

    same : {a b : List Department} → done a ≡ done b → a ≡ b
    same h = cc

    no_parent :
        payload.parent_id ≡ none → (p : ℕ) → payload.parent_id ≡ some p → exists_in p ds ≡ true
    no_parent e p e' = absurd (cc (e, e'))

    its_parent :
        (q : ℕ)
        → payload.parent_id ≡ some q
        → exists_in q ds ≡ true
        → (p : ℕ) → payload.parent_id ≡ some p
        → exists_in p ds ≡ true
    its_parent q e there p e' = subst (λ t. exists_in t ds ≡ true) (cc (e, e')) there

    apart : (n : ℕ) → refused n ≡ done ds' → ⊥
    apart n e = cc

    go :
        (o : Option ℕ)
        → payload.parent_id ≡ o
        → elim o as (λ o. Reply (List Department)) [
          | none ↦ done (row ∷ ds)
          | some p ↦ if exists_in p ds then done (row ∷ ds) else refused 400
        ]
          ≡ done ds'
        → IsForest ds'
    go none e h = subst IsForest (same h) (added_IsForest row ds forest fresh (no_parent e))
    go (some p) e h = elim (Bool-cases (exists_in p ds)) [
      | inl there ↦
          subst IsForest (same (rw there at h))
            (added_IsForest row ds forest fresh (its_parent p e there))
      | inr missing ↦ absurd (apart 400 (rw missing at h))
    ]
