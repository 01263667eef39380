-- ===== src/Admin/Departments/Walk.antt =====
-- The walk over the ancestors: what a pass means, and that the fuel is enough.
use mathlib.Core.Path.{subst}
use janus_server.Prelude.{
  ap, ℕ, zero, suc, ◌+◌, ◌≤◌, ◌<◌, ◌≡◌, ◌≢◌, refl, sym, inl, inr, Bool, true, false, Option, none,
  some, List, [], ◌∷◌, length, All, ◌==◌, ==_iff, Bool-cases, if◌then◌else◌, arith,
}
use janus_server.Admin.Departments.{Department, exists_in, parent_of, mem, walk}
use janus_server.Admin.Departments.Trees.{Rooted, Rooted-unique, Avoids}

mem-All : (P : ℕ → Type 0) (x : ℕ) (ys : List ℕ) → mem x ys ≡ true → All P ys → P x
mem-All P x [] h all = absurd cc
mem-All P x (y ∷ ys) h (p, all) = elim (Bool-cases (y == x)) [
  | inl same ↦ subst P ((==_iff y x).0 same) p
  | inr other ↦ mem-All P x ys (rw other at h) all
]

parent_Rooted :
    (parent : ℕ → Option ℕ) (n c y : ℕ)
    → Rooted parent (suc n) c
    → parent c ≡ some y
    → Rooted parent n y
parent_Rooted parent n c y (z, e', r) e = subst (λ t. Rooted parent n t) (same z e') r
  where
    same : (z : ℕ) → parent c ≡ some z → z ≡ y
    same z e' = cc

module _ (parent : ℕ → Option ℕ) (d : ℕ) where
  -- The departments that are seen already lie further from their root than n.
  abbrev Deeper : ℕ → List ℕ → Type 0
  Deeper n seen = All (λ s. (m : ℕ) × Rooted parent m s × (n < m)) seen

  unseen : (n c : ℕ) (seen : List ℕ) → Rooted parent n c → Deeper n seen → mem c seen ≡ true → ⊥
  unseen n c seen r deep h =
      let (m, r', lt) = mem-All (λ s. (m : ℕ) × Rooted parent m s × (n < m)) c seen h deep in
      let same : n ≡ m = Rooted-unique parent n m c r r' in omega (arith, same)

  shallower : (n : ℕ) (seen : List ℕ) → Deeper (suc n) seen → Deeper n seen
  shallower n [] h = tt
  shallower n (s ∷ seen) ((m, r, lt), h) = ((m, r, omega arith), shallower n seen h)

  -- One step of a walk that passes, from a department that is not seen yet.
  step_passes :
      (fuel c : ℕ) (seen : List ℕ)
      → walk (suc fuel) parent d seen (some c) ≡ some false
      → (mem c seen ≡ true → ⊥)
      → (c ≢ d) × (walk fuel parent d (c ∷ seen) (parent c) ≡ some false)
  unfolding walk
  step_passes fuel c seen h fresh = elim (Bool-cases (mem c seen)) [
    | inl again ↦ absurd (fresh again)
    | inr new ↦ elim (Bool-cases (c == d)) [
      | inl met ↦ absurd (apart (rw (new, met) at h))
      | inr other ↦ (λ same. apart_ne c other same, rw (new, other) at h)
    ]
  ]
    where
      apart : some true ≡ some false → ⊥
      apart e = cc

      apart_ne : (c : ℕ) → (c == d) ≡ false → c ≡ d → ⊥
      apart_ne c other same = ground arith

  -- A walk that passes has met every ancestor, and none of them is d.
  pub walk-Avoids :
      (fuel n c : ℕ) (seen : List ℕ)
      → Rooted parent n c
      → Deeper n seen
      → walk fuel parent d seen (some c) ≡ some false
      → Avoids parent d n c
  unfolding walk
  walk-Avoids zero n c seen r deep h = absurd cc
  walk-Avoids (suc fuel) zero c seen r deep h =
      (step_passes fuel c seen h (unseen zero c seen r deep)).0
  walk-Avoids (suc fuel) (suc n) c seen r deep h = (
    (step_passes fuel c seen h (unseen (suc n) c seen r deep)).0,
    λ y e.
        walk-Avoids fuel n y (c ∷ seen) (parent_Rooted parent n c y r e)
          ((suc n, r, omega arith), shallower n seen deep)
          (rw e at (step_passes fuel c seen h (unseen (suc n) c seen r deep)).1),
  )

-- How many rows are not seen yet.
pub unseen_count : List ℕ → List Department → ℕ
unseen_count seen [] = 0
unseen_count seen (x ∷ ds) = (if mem x.id seen then 0 else 1) + unseen_count seen ds

unseen_count-le :
    (c : ℕ) (seen : List ℕ) (ds : List Department)
    → unseen_count (c ∷ seen) ds ≤ unseen_count seen ds
unfolding unseen_count
unseen_count-le c seen [] = omega arith
unseen_count-le c seen (x ∷ ds) = ground (arith, unseen_count-le c seen ds)

pub unseen_count-lt :
    (c : ℕ) (seen : List ℕ) (ds : List Department)
    → exists_in c ds ≡ true
    → mem c seen ≡ false
    → unseen_count (c ∷ seen) ds < unseen_count seen ds
unfolding unseen_count exists_in
unseen_count-lt c seen [] h new = absurd cc
unseen_count-lt c seen (x ∷ ds) h new = elim (Bool-cases (x.id == c)) [
  | inl same ↦
      rw
        (
          (==_iff c x.id).1 (sym ((==_iff x.id c).0 same)),
          ap (λ t. mem t seen) ((==_iff x.id c).0 same),
          new,
        )
        (omega (arith, unseen_count-le c seen ds))
  | inr other ↦ ground (arith, unseen_count-lt c seen ds (rw other at h) new)
]

pub unseen_count-length : (ds : List Department) → unseen_count [] ds ≡ length ds
unfolding unseen_count
unseen_count-length [] = refl
unseen_count-length (x ∷ ds) = omega (arith, unseen_count-length ds)

pub no_parent : (c : ℕ) (ds : List Department) → exists_in c ds ≡ false → parent_of ds c ≡ none
unfolding exists_in parent_of
no_parent c [] h = refl
no_parent c (x ∷ ds) h = ground (arith, no_parent c ds)

walk-none :
    (ds : List Department) (d fuel : ℕ) (seen : List ℕ)
    → 0 < fuel
    → walk fuel (parent_of ds) d seen none ≢ none
unfolding walk
walk-none ds d zero seen h e = omega arith
walk-none ds d (suc fuel) seen h e = cc

-- Two more steps than there are rows are enough.
walk-ends :
    (ds : List Department) (d fuel : ℕ) (seen : List ℕ) (cursor : Option ℕ)
    → unseen_count seen ds + 2 ≤ fuel
    → walk fuel (parent_of ds) d seen cursor ≢ none
unfolding walk
walk-ends ds d zero seen cursor h e = omega arith
walk-ends ds d (suc fuel) seen none h e = cc
walk-ends ds d (suc fuel) seen (some c) h e = elim (Bool-cases (mem c seen)) [
  | inl again ↦ apart false (rw again at e)
  | inr new ↦ elim (Bool-cases (c == d)) [
    | inl met ↦ apart true (rw (new, met) at e)
    | inr other ↦ elim (Bool-cases (exists_in c ds)) [
      | inl there ↦
          walk-ends ds d fuel (c ∷ seen) (parent_of ds c)
            (omega (arith, unseen_count-lt c seen ds there new)) (rw (new, other) at e)
      | inr missing ↦
          walk-none ds d fuel (c ∷ seen) (omega arith)
            (rw (no_parent c ds missing) at (rw (new, other) at e))
    ]
  ]
]
  where
    apart : (b : Bool) → some b ≡ none → ⊥
    apart b e = cc

-- The fuel that the check gives is enough.
pub walk-ne-none :
    (ds : List Department) (d : ℕ) (cursor : Option ℕ)
    → walk (length ds + 2) (parent_of ds) d [] cursor ≢ none
walk-ne-none ds d cursor =
    walk-ends ds d (length ds + 2) [] cursor (omega (arith, unseen_count-length ds))
