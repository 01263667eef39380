-- ===== src/Admin/Departments/Listed.antt =====
-- What list_departments of src/admin/departments/service.py lists for a keyword.
use janus_server.Prelude.{
  ℕ, zero, suc, ◌+◌, ◌≡◌, ◌≢◌, refl, ap, ◌∙◌, arith, inl, inr, Bool, true, false, ◌&&◌, ◌||◌,
  Bool-cases, Option, none, some, List, [], ◌∷◌, length, All, ◌==◌, ==_iff,
}
use mathlib.Core.Path.{subst}
use janus_server.Admin.Departments.{Department, done, exists_in, parent_of, mem}
use janus_server.Admin.Departments.Walk.{unseen_count-length, no_parent}
use janus_server.Admin.Departments.Kept.{exists_in-keep_included, keep_included-mem}
use janus_server.Admin.Departments.Listing.{
  climb, include_all, keep_included, list_departments, Upward, Within, Climbed, climb-ends,
  climb-Climbed, ids_eq, some_inj,
}

-- Whether some row with the id matches the keyword.
unfoldable pub matched : (Department → Bool) → ℕ → List Department → Bool
matched is_match x [] = false
matched is_match x (d ∷ ds) = d.id == x && is_match d || matched is_match x ds

-- The department matches the keyword, or it is a parent of one that belongs to the list.
pub data Belongs (is_match : Department → Bool) (ds : List Department) : ℕ → Type 0 where
  matching : (x : ℕ) → matched is_match x ds ≡ true → Belongs is_match ds x
  parent : (x p : ℕ) → Belongs is_match ds x → parent_of ds x ≡ some p → Belongs is_match ds p

-- The rows are those that belong to the list.
pub record IsListing (is_match : Department → Bool) (ds rows : List Department) : Type 0 where
  pub sound : (x : ℕ) → exists_in x rows ≡ true → Belongs is_match ds x
  pub complete : (x : ℕ) → Belongs is_match ds x → exists_in x ds ≡ true → exists_in x rows ≡ true

module _ (is_match : Department → Bool) (ds : List Department) where
  AllBelong : List ℕ → Type 0
  AllBelong ids = (x : ℕ) → mem x ids ≡ true → Belongs is_match ds x

  cons-AllBelong :
      (c : ℕ) (ids : List ℕ) → Belongs is_match ds c → AllBelong ids → AllBelong (c ∷ ids)
  unfolding AllBelong
  cons-AllBelong c ids b all x h = elim (Bool-cases (c == x)) [
    | inl same ↦ subst (λ t. Belongs is_match ds t) ((==_iff c x).0 same) b
    | inr other ↦ all x (rw other at h)
  ]

  same_ids : (ids ids' : List ℕ) → AllBelong ids → some ids ≡ some ids' → AllBelong ids'
  same_ids ids ids' all e = subst (λ t. AllBelong t) (ids_eq ds ids ids' e) all

  climb-AllBelong :
      (fuel : ℕ) (seen ids ids' : List ℕ) (cursor : Option ℕ)
      → AllBelong ids
      → ((c : ℕ) → cursor ≡ some c → Belongs is_match ds c)
      → climb fuel ds seen ids cursor ≡ some ids'
      → AllBelong ids'
  unfolding climb
  climb-AllBelong zero seen ids ids' cursor all b e = absurd cc
  climb-AllBelong (suc fuel) seen ids ids' none all b e = same_ids ids ids' all e
  climb-AllBelong (suc fuel) seen ids ids' (some c) all b e = elim (Bool-cases (mem c seen)) [
    | inl again ↦ same_ids ids ids' all (rw again at e)
    | inr new ↦ elim (Bool-cases (exists_in c ds)) [
      | inr missing ↦ same_ids ids ids' all (rw (new, missing) at e)
      | inl there ↦
          climb-AllBelong fuel (c ∷ seen) (c ∷ ids) ids' (parent_of ds c)
            (cons-AllBelong c ids (b c refl) all) (λ p q. parent c p (b c refl) q)
            (rw (new, there) at e)
    ]
  ]

  -- What the loop over the rows includes, behind what was included before.
  record Included (rows : List Department) (ids ids' : List ℕ) : Type 0 where
    upward : Upward ds ids' none
    kept : Within ds ids ids'
    found : (x : ℕ) → matched is_match x rows ≡ true → exists_in x ds ≡ true → mem x ids' ≡ true
    belong : AllBelong ids'

  some_of : (o : Option (List ℕ)) → o ≢ none → (ids : List ℕ) × (o ≡ some ids)
  some_of none ne = absurd (ne refl)
  some_of (some ids) ne = (ids, refl)

  AllMatch : List Department → Type 0
  AllMatch rows = All (λ d. is_match d ≡ true → matched is_match d.id ds ≡ true) rows

  climb_row :
      (d : Department) (ids : List ℕ)
      → Upward ds ids none
      → AllBelong ids
      → Belongs is_match ds d.id
      → (ids' : List ℕ) × (climb (length ds + 2) ds [] ids (some d.id) ≡ some ids')
        × Climbed ds ids ids' (some d.id)
        × AllBelong ids'
  climb_row d ids up all b =
      let (ids', e) = some_of (climb (length ds + 2) ds [] ids (some d.id)) (
        climb-ends ds (length ds + 2) [] ids (some d.id) (omega (arith, unseen_count-length ds))) in
      (
        ids',
        e,
        climb-Climbed ds (length ds + 2) [] ids ids' (some d.id)
            (λ x p h q there ne. up x p h q there none_apart) (λ x h. absurd cc) e,
        climb-AllBelong (length ds + 2) [] ids ids' (some d.id) all
            (λ c q. subst (λ t. Belongs is_match ds t) (some_inj ds d.id c q) b) e,
      )
    where
      none_apart : {p : ℕ} → some p ≢ none
      none_apart e = cc

  matched_tail :
      (x : ℕ) (d : Department) (rest : List Department)
      → is_match d ≡ false
      → matched is_match x (d ∷ rest) ≡ true
      → matched is_match x rest ≡ true
  unfolding matched
  matched_tail x d rest miss h = ground arith

  matched_cases :
      (x : ℕ) (d : Department) (rest : List Department)
      → matched is_match x (d ∷ rest) ≡ true
      → (d.id == x) ≡ false
      → matched is_match x rest ≡ true
  unfolding matched
  matched_cases x d rest h other = ground arith

  include_all_row :
      (d : Department) (rest : List Department) (ids ids1 : List ℕ)
      → is_match d ≡ true
      → climb (length ds + 2) ds [] ids (some d.id) ≡ some ids1
      → include_all is_match ds (d ∷ rest) ids ≡ include_all is_match ds rest ids1
  unfolding include_all
  include_all_row d rest ids ids1 hit q = rw (include_all, hit, q) refl

  include_all-Included :
      (rows : List Department) (ids : List ℕ)
      → Upward ds ids none
      → AllBelong ids
      → AllMatch rows
      → (ids' : List ℕ) × (include_all is_match ds rows ids ≡ some ids') × Included rows ids ids'
  unfolding include_all matched AllMatch
  include_all-Included [] ids up all ok = (
    ids,
    refl,
    record { upward = up; kept = λ x h. h; found = λ x h there. absurd cc; belong = all },
  )
  include_all-Included (d ∷ rest) ids up all (here, ok) = elim (Bool-cases (is_match d)) [
    | inr miss ↦
        let (ids', e, i) = include_all-Included rest ids up all ok in
        (
          ids',
          rw (include_all, miss) e,
          record {
            upward = i.upward;
            kept = i.kept;
            found = λ x h there. i.found x (matched_tail x d rest miss h) there;
            belong = i.belong;
          },
        )
    | inl hit ↦
        let (ids1, q, k, all1) = climb_row d ids up all (matching d.id (here hit)) in
        let (ids', e, i) = include_all-Included rest ids1 k.upward all1 ok in
        (
          ids',
          include_all_row d rest ids ids1 hit q ∙ e,
          record {
            upward = i.upward;
            kept = λ x h. i.kept x (k.kept x h);
            found = λ x h there. elim (Bool-cases (d.id == x)) [
              | inl same ↦ i.kept x (k.met x (ap (λ t. some t) ((==_iff d.id x).0 same)) there)
              | inr other ↦ i.found x (matched_cases x d rest h other) there
            ];
            belong = i.belong;
          },
        )
  ]

  matched_more :
      (x : ℕ) (d : Department) (rows : List Department)
      → matched is_match x rows ≡ true
      → matched is_match x (d ∷ rows) ≡ true
  unfolding matched
  matched_more x d rows h = ground arith

  all_match :
      (rows : List Department)
      → ((x : ℕ) → matched is_match x rows ≡ true → matched is_match x ds ≡ true)
      → AllMatch rows
  unfolding AllMatch matched
  all_match [] f = tt
  all_match (d ∷ rows) f =
      (λ hit. f d.id (here hit), all_match rows (λ x h. f x (matched_more x d rows h)))
    where
      here : is_match d ≡ true → matched is_match d.id (d ∷ rows) ≡ true
      here hit = ground arith

  Included-complete :
      (ids : List ℕ)
      → Included ds [] ids
      → (x : ℕ) → Belongs is_match ds x
      → exists_in x ds ≡ true
      → mem x ids ≡ true
  Included-complete ids i x (matching x' h) there = i.found x h there
  Included-complete ids i p (parent x p' b e) there = elim (Bool-cases (exists_in x ds)) [
    | inl above ↦ i.upward x p (Included-complete ids i x b above) e there (λ q. absurd cc)
    | inr missing ↦ absurd (apart (no_parent x ds missing))
  ]
    where
      apart : parent_of ds x ≡ none → ⊥
      apart q = cc

  -- For a keyword the listing always ends. It holds the departments that match, and those that are
  -- above one that matches, and no other.
  pub list_departments-IsListing :
      (rows : List Department) × (list_departments (some is_match) ds ≡ done rows)
      × IsListing is_match ds rows
  unfolding list_departments AllBelong
  list_departments-IsListing =
      let (ids, e, i) =
        include_all-Included ds [] (λ x p h. absurd cc) (λ x h. absurd cc)
          (all_match ds (λ x h. h)) in
      (
        keep_included ids ds,
        rw (list_departments, e) refl,
        record {
          sound = λ x h. i.belong x (keep_included-mem x ids ds h);
          complete = λ x b there.
              exists_in-keep_included x ids ds (Included-complete ids i x b there) there;
        },
      )
