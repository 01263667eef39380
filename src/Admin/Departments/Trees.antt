-- ===== src/Admin/Departments/Trees.antt =====
-- Chains of parents that end, and what a change of one parent does to them.
use mathlib.Core.Path.{subst}
use janus_server.Prelude.{
  true, false, ℕ, zero, suc, ◌≡◌, ◌≢◌, refl, sym, ◌∙◌, inl, inr, Option, none, some, ◌==◌, ==_iff,
  Bool-cases, arith,
}

-- From x it takes n steps to a department without a parent.
abbrev pub Rooted : (ℕ → Option ℕ) → ℕ → ℕ → Type 0
Rooted parent zero x = parent x ≡ none
Rooted parent (suc n) x = (y : ℕ) × (parent x ≡ some y) × Rooted parent n y

-- The n steps from x do not meet d.
abbrev pub Avoids : (ℕ → Option ℕ) → ℕ → ℕ → ℕ → Type 0
Avoids parent d zero x = x ≢ d
Avoids parent d (suc n) x = (x ≢ d) × ((y : ℕ) → parent x ≡ some y → Avoids parent d n y)

some_eq : (parent : ℕ → Option ℕ) (x y z : ℕ) → parent x ≡ some y → parent x ≡ some z → y ≡ z
some_eq parent x y z e e' = cc

pub Rooted-unique :
    (parent : ℕ → Option ℕ) (n m x : ℕ) → Rooted parent n x → Rooted parent m x → n ≡ m
Rooted-unique parent zero zero x h h' = refl
Rooted-unique parent zero (suc m) x h (y, e, h') = absurd cc
Rooted-unique parent (suc n) zero x (y, e, h) h' = absurd cc
Rooted-unique parent (suc n) (suc m) x (y, e, h) (z, e', h') =
    let same : n ≡ m =
      Rooted-unique parent n m y h
        (subst (λ t. Rooted parent m t) (some_eq parent x z y e' e) h') in
    omega (arith, same)

-- Two trees that differ in the parent of d at most.
module _ (parent parent' : ℕ → Option ℕ) (d : ℕ)
    (agree : (x : ℕ) → x ≢ d → parent' x ≡ parent x) where
  pub Rooted-kept : (n x : ℕ) → Rooted parent n x → Avoids parent d n x → Rooted parent' n x
  Rooted-kept zero x h ne = agree x ne ∙ h
  Rooted-kept (suc n) x (y, e, h) (ne, avoids) = (y, agree x ne ∙ e, Rooted-kept n y h (avoids y e))

  ne_of : (x : ℕ) → (x == d) ≡ false → x ≢ d
  ne_of x h same = ground arith

  at_d : (m : ℕ) → Rooted parent' m d → (x : ℕ) → (x == d) ≡ true → Rooted parent' m x
  at_d m h x same = subst (λ t. Rooted parent' m t) (sym ((==_iff x d).0 same)) h

  pub Rooted-moved :
      (m : ℕ) → Rooted parent' m d → (n x : ℕ) → Rooted parent n x → (k : ℕ) × Rooted parent' k x
  Rooted-moved m h zero x r = elim (Bool-cases (x == d)) [
    | inl same ↦ (m, at_d m h x same)
    | inr other ↦ (0, agree x (ne_of x other) ∙ r)
  ]
  Rooted-moved m h (suc n) x (y, e, r) =
      let (k, up) = Rooted-moved m h n y r in
      elim (Bool-cases (x == d)) [
        | inl same ↦ (m, at_d m h x same)
        | inr other ↦ (suc k, (y, agree x (ne_of x other) ∙ e, up))
      ]
