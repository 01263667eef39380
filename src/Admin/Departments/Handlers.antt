-- ===== src/Admin/Departments/Handlers.antt =====
-- Each operation keeps the departments a forest whose parents all exist.
use mathlib.Core.Option
use mathlib.Core.Path.{subst}
use janus_server.Prelude.{
  ℕ, zero, suc, ◌+◌, ◌<◌, ◌≡◌, ◌≢◌, refl, sym, ◌∙◌, inl, inr, Bool, true, false, Option, none, some,
  List, [], ◌∷◌, length, ◌==◌, Bool-cases, arith,
}
use janus_server.Admin.Departments.{
  Department, DepartmentUpdate, Reply, done, refused, running, exists_in, parent_of,
  has_active_children, walk, validate_reparent, apply_update, update_at, remove_at,
}
use janus_server.Admin.Departments.Trees.{Rooted, Rooted-unique, Avoids, Rooted-kept}
use janus_server.Admin.Departments.Walk.{walk-Avoids}

-- Every chain of parents ends, and every parent is a department.
pub record IsForest (ds : List Department) : Type 0 where
  pub rooted : (x : ℕ) → (n : ℕ) × Rooted (parent_of ds) n x
  pub closed : (x y : ℕ) → parent_of ds x ≡ some y → exists_in y ds ≡ true

-- A chain that is shorter than the one from d does not meet d.
shorter-Avoids :
    (parent : ℕ → Option ℕ) (d m n x : ℕ)
    → Rooted parent m d
    → Rooted parent n x
    → n < m
    → Avoids parent d n x
shorter-Avoids parent d m zero x rd r lt = λ same.
    omega (arith, Rooted-unique parent zero m x r (subst (λ t. Rooted parent m t) (sym same) rd))
shorter-Avoids parent d m (suc n) x rd (z, e', r) lt = (
  λ same. omega (
    arith,
    Rooted-unique parent (suc n) m x (z, e', r) (subst (λ t. Rooted parent m t) (sym same) rd),
  ),
  λ y e.
      shorter-Avoids parent d m n y rd (subst (λ t. Rooted parent n t) (same_parent y e) r)
        (omega arith),
)
  where
    same_parent : (y : ℕ) → parent x ≡ some y → z ≡ y
    same_parent y e = cc

module _ (actor d : ℕ) (payload : DepartmentUpdate) where
  pub update_other :
      (ds : List Department) (x : ℕ)
      → x ≢ d
      → parent_of (update_at d (apply_update actor payload) ds) x ≡ parent_of ds x
  unfolding parent_of update_at apply_update
  update_other [] x ne = refl
  update_other (a ∷ ds) x ne = ground (arith, update_other ds x ne)

  pub update_self :
      (ds : List Department)
      → exists_in d ds ≡ true
      → parent_of (update_at d (apply_update actor payload) ds) d
        ≡ Option.get_or payload.parent_id (parent_of ds d)
  unfolding parent_of update_at apply_update exists_in
  update_self [] h = absurd cc
  update_self (a ∷ ds) h = elim (Bool-cases (a.id == d)) [
    | inl same ↦ rw (same, same) refl
    | inr other ↦ rw (other, other) (update_self ds (rw other at h))
  ]

  pub exists_in-update :
      (ds : List Department) (x : ℕ)
      → exists_in x (update_at d (apply_update actor payload) ds) ≡ exists_in x ds
  unfolding update_at apply_update exists_in
  exists_in-update [] x = refl
  exists_in-update (a ∷ ds) x = elim (Bool-cases (a.id == d)) [
    | inl same ↦ rw (same, exists_in-update ds x) refl
    | inr other ↦ rw (other, exists_in-update ds x) refl
  ]

module _ (d : ℕ) where
  pub remove_other :
      (ds : List Department) (x : ℕ) → x ≢ d → parent_of (remove_at d ds) x ≡ parent_of ds x
  unfolding parent_of remove_at
  remove_other [] x ne = refl
  remove_other (a ∷ ds) x ne = ground (arith, remove_other ds x ne)

  pub remove_self : (ds : List Department) → parent_of (remove_at d ds) d ≡ none
  unfolding parent_of remove_at
  remove_self [] = refl
  remove_self (a ∷ ds) = elim (Bool-cases (a.id == d)) [
    | inl same ↦ rw same (remove_self ds)
    | inr other ↦ rw (other, other) (remove_self ds)
  ]

  pub exists_in-remove :
      (ds : List Department) (x : ℕ)
      → x ≢ d
      → exists_in x ds ≡ true
      → exists_in x (remove_at d ds) ≡ true
  unfolding exists_in remove_at
  exists_in-remove [] x ne h = h
  exists_in-remove (a ∷ ds) x ne h = ground (arith, exists_in-remove ds x ne)

  pub childless :
      (ds : List Department) (x y : ℕ)
      → has_active_children d ds ≡ false
      → parent_of ds x ≡ some y
      → y ≢ d
  unfolding has_active_children parent_of
  childless [] x y h e same = cc
  childless (a ∷ ds) x y h e same = ground (arith, childless ds x y)

-- The department under the parent that a request may give it.
module _ (ds : List Department) (forest : IsForest ds) (d : ℕ) (parent' : ℕ → Option ℕ)
    (agree : (x : ℕ) → x ≢ d → parent' x ≡ parent_of ds x) where
  pub kept_parent : parent' d ≡ parent_of ds d → (m : ℕ) × Rooted parent' m d
  kept_parent same = go (forest.rooted d)
    where
      go : (n : ℕ) × Rooted (parent_of ds) n d → (m : ℕ) × Rooted parent' m d
      go (zero, r) = (0, same ∙ r)
      go (suc n, (y, e, r)) = (
        suc n,
        (
          y,
          same ∙ e,
          Rooted-kept (parent_of ds) parent' d agree n y r
              (shorter-Avoids (parent_of ds) d (suc n) n y (y, e, r) r (omega arith)),
        ),
      )

  pub new_parent :
      (p : ℕ)
      → parent' d ≡ some p
      → walk (length ds + 2) (parent_of ds) d [] (some p) ≡ some false
      → (m : ℕ) × Rooted parent' m d
  new_parent p e h =
      let (n, r) = forest.rooted p in
      (
        suc n,
        (
          p,
          e,
          Rooted-kept (parent_of ds) parent' d agree n p r
              (walk-Avoids (parent_of ds) d (length ds + 2) n p [] r tt h),
        ),
      )

-- What a pass of the check says of the parent.
abbrev pub Checked : List Department → ℕ → Option ℕ → Type 0
Checked ds d none = Unit
Checked ds d (some p) =
    (exists_in p ds ≡ true) × (walk (length ds + 2) (parent_of ds) d [] (some p) ≡ some false)

pub validate_reparent-Checked :
    (ds : List Department) (d : ℕ) (p : Option ℕ)
    → validate_reparent ds d p ≡ done tt
    → Checked ds d p
unfolding validate_reparent
validate_reparent-Checked ds d none h = tt
validate_reparent-Checked ds d (some p) h = elim (Bool-cases (p == d)) [
  | inl self ↦ absurd (apart 400 (rw self at h))
  | inr other ↦ elim (Bool-cases (exists_in p ds)) [
    | inr missing ↦ absurd (apart 400 (rw (other, missing) at h))
    | inl there ↦
        (there, go (walk (length ds + 2) (parent_of ds) d [] (some p)) (rw (other, there) at h))
  ]
]
  where
    apart : (n : ℕ) → refused n ≡ done tt → ⊥
    apart n e = cc

    go :
        (o : Option Bool)
        → elim o as (λ o. Reply (Unit {0})) [
          | none ↦ running
          | some true ↦ refused 400
          | some false ↦ done tt
        ]
          ≡ done tt
        → o ≡ some false
    go none e = absurd cc
    go (some true) e = absurd cc
    go (some false) e = refl
