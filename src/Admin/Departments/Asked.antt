-- ===== src/Admin/Departments/Asked.antt =====
-- src/admin/departments/service.py: which departments batch_delete_departments deletes and skips.
use mathlib.Core.Path.{subst}
use janus_server.Prelude.{
  ℕ, ◌+◌, ◌==◌, ==_iff, ◌≡◌, refl, sym, ap, ◌∙◌, arith, inl, inr, ◌⊎◌, Bool, true, false, not, ◌&&◌,
  Bool-cases, List, [], ◌∷◌, ◌++◌, length, if◌then◌else◌,
}
use janus_server.Admin.Departments.{Department, exists_in, mem, remove_at}
use janus_server.Admin.Departments.Handlers.{IsForest}
use janus_server.Admin.Departments.Batch.{
  BatchResult, from_keys, is_skipped, Progress, delete_one, delete_each, batch_delete_departments,
  delete_each-IsForest,
}

-- No id stands twice in the list.
abbrev pub IsUnique : List ℕ → Type 0
IsUnique [] = Unit
IsUnique (x ∷ xs) = (mem x xs ≡ false) × IsUnique xs

mem-from_keys :
    (x : ℕ) (seen ids : List ℕ) → mem x (from_keys seen ids) ≡ (mem x ids && not (mem x seen))
unfolding from_keys
mem-from_keys x seen [] = refl
mem-from_keys x seen (y ∷ ids) = elim (Bool-cases (mem y seen)) [
  | inl again ↦ rw again (mem-from_keys x seen ids ∙ known (Bool-cases (y == x)) again)
  | inr new ↦ rw new (first (Bool-cases (y == x)) new (mem-from_keys x (y ∷ seen) ids))
]
  where
    known :
        ((y == x) ≡ true) ⊎ ((y == x) ≡ false)
        → mem y seen ≡ true
        → (mem x ids && not (mem x seen)) ≡ (mem x (y ∷ ids) && not (mem x seen))
    known (inl same) again =
        let there : mem x seen ≡ true = ap (λ t. mem t seen) (sym ((==_iff y x).0 same)) ∙ again in
        rw (same, there) (none_left (mem x ids))
      where
        none_left : (b : Bool) → (b && false) ≡ false
        none_left true = refl
        none_left false = refl
    known (inr other) again = rw other refl

    first :
        ((y == x) ≡ true) ⊎ ((y == x) ≡ false)
        → mem y seen ≡ false
        → mem x (from_keys (y ∷ seen) ids) ≡ (mem x ids && not (mem x (y ∷ seen)))
        → mem x (y ∷ from_keys (y ∷ seen) ids) ≡ (mem x (y ∷ ids) && not (mem x seen))
    first (inl same) new ih =
        let fresh : mem x seen ≡ false = ap (λ t. mem t seen) (sym ((==_iff y x).0 same)) ∙ new in
        rw (same, fresh) refl
    first (inr other) new ih = rw other (rw other at ih)

from_keys-IsUnique : (seen ids : List ℕ) → IsUnique (from_keys seen ids)
unfolding from_keys
from_keys-IsUnique seen [] = tt
from_keys-IsUnique seen (y ∷ ids) = elim (Bool-cases (mem y seen)) [
  | inl again ↦ rw again (from_keys-IsUnique seen ids)
  | inr new ↦ rw new (not_again, from_keys-IsUnique (y ∷ seen) ids)
]
  where
    none_left : (b : Bool) → (b && false) ≡ false
    none_left true = refl
    none_left false = refl

    not_again : mem y (from_keys (y ∷ seen) ids) ≡ false
    not_again =
        mem-from_keys y (y ∷ seen) ids
        ∙ ap (λ b. mem y ids && not (if b then true else mem y seen)) ((==_iff y y).1 refl)
        ∙ none_left (mem y ids)

mem-append_left : (x : ℕ) (xs ys : List ℕ) → mem x xs ≡ true → mem x (xs ++ ys) ≡ true
mem-append_left x [] ys h = absurd cc
mem-append_left x (y ∷ xs) ys h = elim (Bool-cases (y == x)) [
  | inl same ↦ rw same refl
  | inr other ↦ rw other (mem-append_left x xs ys (rw other at h))
]

mem-append_last : (x : ℕ) (xs : List ℕ) → mem x (xs ++ x ∷ []) ≡ true
mem-append_last x [] = rw ((==_iff x x).1 refl) refl
mem-append_last x (y ∷ xs) = elim (Bool-cases (y == x)) [
  | inl same ↦ rw same refl
  | inr other ↦ rw other (mem-append_last x xs)
]

removed : (d : ℕ) (ds : List Department) → exists_in d (remove_at d ds) ≡ false
unfolding exists_in remove_at
removed d [] = refl
removed d (a ∷ ds) = elim (Bool-cases (a.id == d)) [
  | inl same ↦ rw same (removed d ds)
  | inr other ↦ rw (other, other) (removed d ds)
]

still_gone :
    (x d : ℕ) (ds : List Department) → exists_in x ds ≡ false → exists_in x (remove_at d ds) ≡ false
unfolding exists_in remove_at
still_gone x d [] h = refl
still_gone x d (a ∷ ds) h = elim (Bool-cases (a.id == x)) [
  | inl same ↦ absurd (cc (rw same at h))
  | inr other ↦ elim (Bool-cases (a.id == d)) [
    | inl dropped ↦ rw dropped (still_gone x d ds (rw other at h))
    | inr kept ↦ rw (kept, other) (still_gone x d ds (rw other at h))
  ]
]

module _ (has_active_members : ℕ → Bool) where
  -- What the rest of the loop keeps.
  record Onward (p r : Progress) : Type 0 where
    still_skipped : (x : ℕ) → mem x p.skipped_ids ≡ true → mem x r.skipped_ids ≡ true
    gone : (x : ℕ) → exists_in x p.depts ≡ false → exists_in x r.depts ≡ false

  abbrev pub Treated : List ℕ → List Department → List ℕ → Type 0
  Treated asked ds skipped_ids =
      (x : ℕ) → mem x asked ≡ true → (mem x skipped_ids ≡ true) ⊎ (exists_in x ds ≡ false)

  delete_one-Onward : (b : Bool) (d : ℕ) (p : Progress) → Onward p (delete_one b d p)
  delete_one-Onward true d p = record {
    still_skipped = λ x h. mem-append_left x p.skipped_ids (d ∷ []) h;
    gone = λ x h. h;
  }
  delete_one-Onward false d p = record {
    still_skipped = λ x h. h;
    gone = λ x h. still_gone x d p.depts h;
  }

  delete_one_treats :
      (b : Bool) (d : ℕ) (p : Progress)
      → (mem d (delete_one b d p).skipped_ids ≡ true)
        ⊎ (exists_in d (delete_one b d p).depts ≡ false)
  delete_one_treats true d p = inl (mem-append_last d p.skipped_ids)
  delete_one_treats false d p = inr (removed d p.depts)

  delete_each-Onward :
      (ids : List ℕ) (p : Progress) → Onward p (delete_each has_active_members ids p)
  unfolding delete_each
  delete_each-Onward [] p = record { still_skipped = λ x h. h; gone = λ x h. h }
  delete_each-Onward (d ∷ ids) p =
      let b = is_skipped has_active_members d p.depts in
      let one = delete_one-Onward b d p in
      let rest = delete_each-Onward ids (delete_one b d p) in
      record {
        still_skipped = λ x h. rest.still_skipped x (one.still_skipped x h);
        gone = λ x h. rest.gone x (one.gone x h);
      }

  delete_each-Treated :
      (ids : List ℕ) (p : Progress)
      → Treated ids
          (delete_each has_active_members ids p).depts
          (delete_each has_active_members ids p).skipped_ids
  unfolding delete_each
  delete_each-Treated [] p x h = absurd cc
  delete_each-Treated (d ∷ ids) p x h =
      let b = is_skipped has_active_members d p.depts in
      let rest = delete_each-Onward ids (delete_one b d p) in
      elim (Bool-cases (d == x)) [
        | inr other ↦ delete_each-Treated ids (delete_one b d p) x (rw other at h)
        | inl same ↦
            subst
              (λ t.
                (mem t (delete_each has_active_members ids (delete_one b d p)).skipped_ids ≡ true)
                ⊎ (exists_in t (delete_each has_active_members ids (delete_one b d p)).depts
                    ≡ false))
              ((==_iff d x).0 same)
              (elim (delete_one_treats b d p) [
                | inl skipped ↦ inl (rest.still_skipped d skipped)
                | inr deleted ↦ inr (rest.gone d deleted)
              ])
      ]

  -- The departments and the answer that a batch deletion of the ids ends with.
  pub record IsBatch (ids : List ℕ) (ds : List Department) (answer : BatchResult) : Type 0 where
    pub forest : IsForest ds
    pub asked : List ℕ
    pub unique : IsUnique asked
    pub same_ids : (x : ℕ) → mem x asked ≡ mem x ids
    pub requested : answer.requested ≡ length asked
    pub counted : answer.requested ≡ answer.affected + length answer.skipped_ids
    pub treated : Treated asked ds answer.skipped_ids

  -- Whatever ids are asked for, a batch deletion keeps the departments a forest: no child loses its
  -- parent. It is about the distinct ids that were asked for: their number is `requested`, each of
  -- them is among the skipped ids or is no department afterwards, and `requested` is `affected` and
  -- the number of skipped ids together.
  pub batch_delete_departments-IsForest :
      (ids : List ℕ) (ds : List Department)
      → IsForest ds
      → IsBatch ids
          (batch_delete_departments has_active_members ids ds).0
          (batch_delete_departments has_active_members ids ds).1
  unfolding batch_delete_departments
  batch_delete_departments-IsForest ids ds forest =
      let start : Progress = record { depts = ds; affected = 0; skipped_ids = [] } in
      let (forest', count) =
        delete_each-IsForest has_active_members (from_keys [] ids) start forest in
      record {
        forest = forest';
        asked = from_keys [] ids;
        unique = from_keys-IsUnique [] ids;
        same_ids = λ x. mem-from_keys x [] ids ∙ whole (mem x ids);
        requested = refl;
        counted = omega (arith, count);
        treated = delete_each-Treated (from_keys [] ids) start;
      }
    where
      whole : (b : Bool) → (b && true) ≡ b
      whole true = refl
      whole false = refl
