-- ===== src/Admin/Departments/Listing.antt =====
-- src/admin/departments/service.py: list_departments, the departments that match a keyword with
-- their ancestors.

use mathlib.Core.Path.{subst}
use janus_server.Prelude.{
  ℕ, zero, suc, ◌+◌, ◌≤◌, ◌≡◌, ◌≢◌, refl, sym, ap, ◌∙◌, arith, inl, inr, Bool, true, false,
  Bool-cases, Option, none, some, List, [], ◌∷◌, length, ◌==◌, ==_iff, if◌then◌else◌,
}
use janus_server.Admin.Departments.{Department, Reply, done, running, exists_in, parent_of, mem}
use janus_server.Admin.Departments.Walk.{unseen_count, unseen_count-lt}

-- `while cursor is not None and cursor not in seen`: the ids that are included after it. `none` is
-- a loop that has not ended within the fuel.
unfoldable pub climb : ℕ → List Department → List ℕ → List ℕ → Option ℕ → Option (List ℕ)
unfolding exists_in parent_of
climb zero depts seen included_ids cursor = none
climb (suc fuel) depts seen included_ids none = some included_ids
climb (suc fuel) depts seen included_ids (some c) =
    let rest = climb fuel depts (c ∷ seen) (c ∷ included_ids) (parent_of depts c) in
    if mem c seen then some included_ids else if exists_in c depts then rest else some included_ids

-- `for dept in departments`.
unfoldable pub include_all :
    (Department → Bool) → List Department → List Department → List ℕ → Option (List ℕ)
unfolding climb
include_all is_match depts [] included_ids = some included_ids
include_all is_match depts (dept ∷ rest) included_ids =
    elim (if is_match dept
      then climb (length depts + 2) depts [] included_ids (some dept.id)
      else some included_ids) [
        | none ↦ none
        | some included_ids' ↦ include_all is_match depts rest included_ids'
      ]

unfoldable pub keep_included : List ℕ → List Department → List Department
keep_included included_ids [] = []
keep_included included_ids (dept ∷ rest) =
    let others = keep_included included_ids rest in
    if mem dept.id included_ids then dept ∷ others else others

-- The keyword stands for the test that it makes on a row: whether the folded name contains it.
unfoldable pub list_departments :
    Option (Department → Bool) → List Department → Reply (List Department)
unfolding include_all keep_included
list_departments none depts = done depts
list_departments (some is_match) depts = elim (include_all is_match depts depts []) [
  | none ↦ running
  | some included_ids ↦ done (keep_included included_ids depts)
]

module _ (ds : List Department) where
  -- An included department's parent is included too, or it is where the walk stands.
  abbrev pub Upward : List ℕ → Option ℕ → Type 0
  Upward ids cursor =
      (x p : ℕ)
      → mem x ids ≡ true
      → parent_of ds x ≡ some p
      → exists_in p ds ≡ true
      → (some p ≢ cursor)
      → mem p ids ≡ true

  abbrev pub Within : List ℕ → List ℕ → Type 0
  Within xs ys = (x : ℕ) → mem x xs ≡ true → mem x ys ≡ true

  pub climb-ends :
      (fuel : ℕ) (seen ids : List ℕ) (cursor : Option ℕ)
      → unseen_count seen ds + 2 ≤ fuel
      → climb fuel ds seen ids cursor ≢ none
  unfolding climb
  climb-ends zero seen ids cursor h e = omega arith
  climb-ends (suc fuel) seen ids none h e = cc
  climb-ends (suc fuel) seen ids (some c) h e = elim (Bool-cases (mem c seen)) [
    | inl again ↦ apart (rw again at e)
    | inr new ↦ elim (Bool-cases (exists_in c ds)) [
      | inr missing ↦ apart (rw (new, missing) at e)
      | inl there ↦
          climb-ends fuel (c ∷ seen) (c ∷ ids) (parent_of ds c)
            (omega (arith, unseen_count-lt c seen ds there new)) (rw (new, there) at e)
    ]
  ]
    where
      apart : some ids ≡ none → ⊥
      apart e = cc

  -- What a walk that ends has included.
  pub record Climbed (ids ids' : List ℕ) (cursor : Option ℕ) : Type 0 where
    pub upward : Upward ids' none
    pub kept : Within ids ids'
    pub met : (c : ℕ) → cursor ≡ some c → exists_in c ds ≡ true → mem c ids' ≡ true

  pub mem-tail : (x c : ℕ) (ids : List ℕ) → mem x ids ≡ true → mem x (c ∷ ids) ≡ true
  mem-tail x c ids h = ground arith

  mem-head : (c : ℕ) (ids : List ℕ) → mem c (c ∷ ids) ≡ true
  mem-head c ids = ground arith

  pub some_inj : (p c : ℕ) → some p ≡ some c → p ≡ c
  some_inj p c e = cc

  step-Upward : (c : ℕ) (ids : List ℕ) → Upward ids (some c) → Upward (c ∷ ids) (parent_of ds c)
  step-Upward c ids up x p h e there ne = elim (Bool-cases (c == x)) [
    | inl same ↦ absurd (ne (sym (ap (parent_of ds) ((==_iff c x).0 same) ∙ e)))
    | inr other ↦ elim (Bool-cases (c == p)) [
      | inl at_p ↦ rw at_p refl
      | inr off ↦ mem-tail p c ids (up x p (rw other at h) e there (off_cursor off))
    ]
  ]
    where
      off_cursor : (c == p) ≡ false → some p ≢ some c
      off_cursor off same = let q = some_inj p c same in ground arith

  pub ids_eq : (ids ids' : List ℕ) → some ids ≡ some ids' → ids ≡ ids'
  ids_eq ids ids' e = cc

  -- A walk that stops at c, which is included if it exists.
  stop-Climbed :
      (c : ℕ) (ids : List ℕ)
      → Upward ids (some c)
      → (exists_in c ds ≡ true → mem c ids ≡ true)
      → Climbed ids ids (some c)
  stop-Climbed c ids up here = record {
    upward = λ x p h e there ne. elim (Bool-cases (p == c)) [
      | inl same ↦ at_cursor p same there
      | inr other ↦ up x p h e there (off_cursor p other)
    ];
    kept = λ x h. h;
    met = λ c' e there. at_cursor c' ((==_iff c' c).1 (sym (some_inj c c' e))) there;
  }
    where
      at_cursor : (p : ℕ) → (p == c) ≡ true → exists_in p ds ≡ true → mem p ids ≡ true
      at_cursor p same =
          subst (λ t. exists_in t ds ≡ true → mem t ids ≡ true) (sym ((==_iff p c).0 same)) here

      off_cursor : (p : ℕ) → (p == c) ≡ false → some p ≢ some c
      off_cursor p off same = let q = some_inj p c same in ground arith

  pub climb-Climbed :
      (fuel : ℕ) (seen ids ids' : List ℕ) (cursor : Option ℕ)
      → Upward ids cursor
      → Within seen ids
      → climb fuel ds seen ids cursor ≡ some ids'
      → Climbed ids ids' cursor
  unfolding climb
  climb-Climbed zero seen ids ids' cursor up in_ids e = absurd cc
  climb-Climbed (suc fuel) seen ids ids' none up in_ids e =
      subst (λ t. Climbed ids t none) (ids_eq ids ids' e)
        (record { upward = up; kept = λ x h. h; met = λ c e' there. absurd cc })
  climb-Climbed (suc fuel) seen ids ids' (some c) up in_ids e = elim (Bool-cases (mem c seen)) [
    | inl again ↦
        subst (λ t. Climbed ids t (some c)) (ids_eq ids ids' (rw again at e))
          (stop-Climbed c ids up (λ there. in_ids c again))
    | inr new ↦ elim (Bool-cases (exists_in c ds)) [
      | inr missing ↦
          subst (λ t. Climbed ids t (some c)) (ids_eq ids ids' (rw (new, missing) at e))
            (stop-Climbed c ids up (λ there. absurd cc))
      | inl there ↦ passed c ids ids' (
          climb-Climbed fuel (c ∷ seen) (c ∷ ids) ids' (parent_of ds c) (step-Upward c ids up)
            (λ x h. both x (in_ids x) h) (rw (new, there) at e))
    ]
  ]
    where
      both :
          (x : ℕ)
          → (mem x seen ≡ true → mem x ids ≡ true)
          → mem x (c ∷ seen) ≡ true
          → mem x (c ∷ ids) ≡ true
      both x f h = elim (Bool-cases (c == x)) [
        | inl same ↦ rw same refl
        | inr other ↦ mem-tail x c ids (f (rw other at h))
      ]

      passed :
          (c : ℕ) (ids ids' : List ℕ)
          → Climbed (c ∷ ids) ids' (parent_of ds c)
          → Climbed ids ids' (some c)
      passed c ids ids' k = record {
        upward = k.upward;
        kept = λ x h. k.kept x (mem-tail x c ids h);
        met = λ c' e' there.
            subst (λ t. mem t ids' ≡ true) (some_inj c c' e') (k.kept c (mem-head c ids));
      }
