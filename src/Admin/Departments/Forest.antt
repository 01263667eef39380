-- ===== src/Admin/Departments/Forest.antt =====
-- What each operation of the service does to the forest.
use mathlib.Core.Option
use mathlib.Core.Path.{subst}
use janus_server.Prelude.{
  ap, ℕ, ◌≡◌, ◌≢◌, refl, sym, ◌∙◌, inl, inr, Bool, true, false, Option, none, some, List, ◌==◌,
  ==_iff, Bool-cases, arith,
}
use janus_server.Admin.Departments.{
  Department, DepartmentUpdate, Reply, done, refused, running, exists_in, parent_of,
  has_active_children, validate_reparent, validate_update, apply_update, update_at, remove_at,
  update_department, delete_department,
}
use janus_server.Admin.Departments.Trees.{Rooted, Rooted-moved}
use janus_server.Admin.Departments.Walk.{walk-ne-none}
use janus_server.Admin.Departments.Handlers.{
  IsForest, update_other, update_self, exists_in-update, remove_other, remove_self,
  exists_in-remove, childless, kept_parent, new_parent, validate_reparent-Checked,
}

pub ne_of : (x y : ℕ) → (x == y) ≡ false → x ≢ y
ne_of x y h same = ground arith

-- A forest in which one department has another parent, from which a chain ends.
pub move_IsForest :
    (ds ds' : List Department) (d : ℕ)
    → IsForest ds
    → ((x : ℕ) → x ≢ d → parent_of ds' x ≡ parent_of ds x)
    → ((x y : ℕ) → parent_of ds' x ≡ some y → exists_in y ds' ≡ true)
    → (m : ℕ) × Rooted (parent_of ds') m d
    → IsForest ds'
move_IsForest ds ds' d forest agree closed (m, r) = record {
  rooted = λ x.
      let (n, rx) = forest.rooted x in
      Rooted-moved (parent_of ds) (parent_of ds') d agree m r n x rx;
  closed = closed;
}

module _ (actor d : ℕ) (payload : DepartmentUpdate) (ds : List Department)
    (forest : IsForest ds) where
  abbrev updated : List Department
  updated = update_at d (apply_update actor payload) ds

  update_closed :
      exists_in d ds ≡ true
      → ((y : ℕ) → parent_of updated d ≡ some y → exists_in y ds ≡ true)
      → (x y : ℕ) → parent_of updated x ≡ some y
      → exists_in y updated ≡ true
  update_closed there at_d x y e =
      exists_in-update actor d payload ds y ∙ elim (Bool-cases (x == d)) [
        | inl same ↦ at_d y (sym (ap (parent_of updated) ((==_iff x d).0 same)) ∙ e)
        | inr other ↦
            forest.closed x y (sym (update_other actor d payload ds x (ne_of x d other)) ∙ e)
      ]

  update_checked :
      exists_in d ds ≡ true
      → (o : Option (Option ℕ)) → payload.parent_id ≡ o
      → validate_update ds d o ≡ done tt
      → IsForest updated
  unfolding validate_update
  update_checked there none e h =
      let same : parent_of updated d ≡ parent_of ds d =
        update_self actor d payload ds there ∙ ap (λ o. Option.get_or o (parent_of ds d)) e in
      move_IsForest ds updated d forest (update_other actor d payload ds)
        (update_closed there (λ y e'. forest.closed d y (sym same ∙ e')))
        (kept_parent ds forest d (parent_of updated) (update_other actor d payload ds) same)
  update_checked there (some none) e h =
      let root : parent_of updated d ≡ none =
        update_self actor d payload ds there ∙ ap (λ o. Option.get_or o (parent_of ds d)) e in
      move_IsForest ds updated d forest (update_other actor d payload ds)
        (update_closed there (λ y e'. absurd (cc (root, e')))) (0, root)
  update_checked there (some (some p)) e h =
      let moved : parent_of updated d ≡ some p =
        update_self actor d payload ds there ∙ ap (λ o. Option.get_or o (parent_of ds d)) e in
      let (found, passes) = validate_reparent-Checked ds d (some p) h in
      move_IsForest ds updated d forest (update_other actor d payload ds)
        (update_closed there (λ y e'. subst (λ t. exists_in t ds ≡ true) (cc (moved, e')) found))
        (new_parent ds forest d (parent_of updated) (update_other actor d payload ds) p moved
          passes)

-- An update that succeeds keeps the departments a forest: no department becomes its own ancestor,
-- and every parent is a department that is not deleted.
pub update_department-IsForest :
    (actor d : ℕ) (payload : DepartmentUpdate) (ds ds' : List Department)
    → IsForest ds
    → update_department actor d payload ds ≡ done ds'
    → IsForest ds'
unfolding update_department
update_department-IsForest actor d payload ds ds' forest h = elim (Bool-cases (exists_in d ds)) [
  | inr missing ↦ absurd (apart 404 (rw missing at h))
  | inl there ↦ go there (validate_update ds d payload.parent_id) refl (rw there at h)
]
  where
    apart : (n : ℕ) → refused n ≡ done ds' → ⊥
    apart n e = cc

    go :
        exists_in d ds ≡ true
        → (o : Reply (Unit {0})) → validate_update ds d payload.parent_id ≡ o
        → elim o as (λ o. Reply (List Department)) [
          | done u ↦ done (update_at d (apply_update actor payload) ds)
          | refused status ↦ refused status
          | running ↦ running
        ]
          ≡ done ds'
        → IsForest ds'
    go there (done tt) e h =
        subst IsForest (same h)
          (update_checked actor d payload ds forest there payload.parent_id refl e)
      where
        same : {a b : List Department} → done a ≡ done b → a ≡ b
        same h = cc
    go there (refused n) e h = absurd (apart n h)
    go there running e h = absurd cc

-- An update always ends: the fuel of the walk is enough, for rows that form no forest too.
pub update_department-ne-running :
    (actor d : ℕ) (payload : DepartmentUpdate) (ds : List Department)
    → update_department actor d payload ds ≢ running
unfolding update_department
update_department-ne-running actor d payload ds h = elim (Bool-cases (exists_in d ds)) [
  | inr missing ↦ apart (refused 404) tt (rw missing at h)
  | inl there ↦
      go (validate_update ds d payload.parent_id) (validate_update-Ended payload.parent_id)
        (rw there at h)
]
  where
    Ended : {A : Type 0} → Reply A → Type 0
    Ended running = ⊥
    Ended _ = Unit

    apart : {A : Type 0} (o : Reply A) → Ended o → o ≡ running → ⊥
    apart (done a) u e = cc
    apart (refused n) u e = cc
    apart running u e = u

    checked :
        (o : Option Bool)
        → o ≢ none
        → Ended (elim o as (λ o. Reply (Unit {0})) [
          | none ↦ running
          | some true ↦ refused 400
          | some false ↦ done tt
        ])
    checked none ne = ne refl
    checked (some true) ne = tt
    checked (some false) ne = tt

    validate_reparent-Ended : (p : Option ℕ) → Ended (validate_reparent ds d p)
    validate_reparent-Ended none = tt
    validate_reparent-Ended (some p) = elim (Bool-cases (p == d)) [
      | inl self ↦ rw self tt
      | inr other ↦ elim (Bool-cases (exists_in p ds)) [
        | inr missing ↦ rw (other, missing) tt
        | inl there ↦ rw (other, there) (checked _ (walk-ne-none ds d (some p)))
      ]
    ]

    validate_update-Ended : (o : Option (Option ℕ)) → Ended (validate_update ds d o)
    validate_update-Ended none = tt
    validate_update-Ended (some p) = validate_reparent-Ended p

    go :
        (o : Reply (Unit {0}))
        → Ended o
        → elim o as (λ o. Reply (List Department)) [
          | done u ↦ done (update_at d (apply_update actor payload) ds)
          | refused status ↦ refused status
          | running ↦ running
        ]
          ≡ running
        → ⊥
    go (done u) v e = cc
    go (refused n) v e = cc
    go running v e = v

-- A deletion that succeeds keeps the departments a forest: no child loses its parent.
pub delete_department-IsForest :
    (has_active_members : ℕ → Bool) (d : ℕ) (ds ds' : List Department)
    → IsForest ds
    → delete_department has_active_members d ds ≡ done ds'
    → IsForest ds'
unfolding delete_department
delete_department-IsForest has_active_members d ds ds' forest h =
    elim (Bool-cases (exists_in d ds)) [
      | inr missing ↦ absurd (apart 404 (rw missing at h))
      | inl there ↦ elim (Bool-cases (has_active_children d ds)) [
        | inl children ↦ absurd (apart 400 (rw (there, children) at h))
        | inr bare ↦ elim (Bool-cases (has_active_members d)) [
          | inl members ↦ absurd (apart 400 (rw (there, bare, members) at h))
          | inr unused ↦ subst IsForest (same (rw (there, bare, unused) at h)) (removed bare)
        ]
      ]
    ]
  where
    apart : (n : ℕ) → refused n ≡ done ds' → ⊥
    apart n e = cc

    same : {a b : List Department} → done a ≡ done b → a ≡ b
    same h = cc

    still :
        (x y : ℕ)
        → has_active_children d ds ≡ false
        → parent_of ds x ≡ some y
        → exists_in y (remove_at d ds) ≡ true
    still x y bare e = exists_in-remove d ds y (childless d ds x y bare e) (forest.closed x y e)

    closed :
        has_active_children d ds ≡ false
        → (x y : ℕ) → parent_of (remove_at d ds) x ≡ some y
        → exists_in y (remove_at d ds) ≡ true
    closed bare x y e = elim (Bool-cases (x == d)) [
      | inl self ↦
          absurd (cc (remove_self d ds, ap (parent_of (remove_at d ds)) ((==_iff x d).0 self), e))
      | inr other ↦ still x y bare (sym (remove_other d ds x (ne_of x d other)) ∙ e)
    ]

    removed : has_active_children d ds ≡ false → IsForest (remove_at d ds)
    removed bare =
        move_IsForest ds (remove_at d ds) d forest (remove_other d ds) (closed bare)
          (0, remove_self d ds)
