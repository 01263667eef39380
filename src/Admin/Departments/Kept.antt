-- ===== src/Admin/Departments/Kept.antt =====
-- The last line of list_departments in src/admin/departments/service.py: the rows whose ids are
-- included.
use mathlib.Core.Path.{subst}
use janus_server.Prelude.{
  ℕ, ◌≡◌, refl, ap, ◌∙◌, inl, inr, true, Bool-cases, List, [], ◌∷◌, ◌==◌, ==_iff,
}
use janus_server.Admin.Departments.{Department, exists_in, mem}
use janus_server.Admin.Departments.Listing.{keep_included}

pub exists_in-keep_included :
    (x : ℕ) (ids : List ℕ) (rows : List Department)
    → mem x ids ≡ true
    → exists_in x rows ≡ true
    → exists_in x (keep_included ids rows) ≡ true
unfolding exists_in keep_included
exists_in-keep_included x ids [] h there = absurd cc
exists_in-keep_included x ids (d ∷ rows) h there = elim (Bool-cases (d.id == x)) [
  | inl same ↦ rw (ap (λ t. mem t ids) ((==_iff d.id x).0 same) ∙ h, same) refl
  | inr other ↦
      let rest = exists_in-keep_included x ids rows h (rw other at there) in
      elim (Bool-cases (mem d.id ids)) [
        | inl included ↦ rw (included, other) rest
        | inr left_out ↦ rw left_out rest
      ]
]

pub keep_included-mem :
    (x : ℕ) (ids : List ℕ) (rows : List Department)
    → exists_in x (keep_included ids rows) ≡ true
    → mem x ids ≡ true
unfolding exists_in keep_included
keep_included-mem x ids [] h = absurd cc
keep_included-mem x ids (d ∷ rows) h = elim (Bool-cases (mem d.id ids)) [
  | inr left_out ↦ keep_included-mem x ids rows (rw left_out at h)
  | inl included ↦ elim (Bool-cases (d.id == x)) [
    | inl same ↦ subst (λ t. mem t ids ≡ true) ((==_iff d.id x).0 same) included
    | inr other ↦ keep_included-mem x ids rows (rw (included, other) at h)
  ]
]
