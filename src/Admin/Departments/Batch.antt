-- ===== src/Admin/Departments/Batch.antt =====
-- src/admin/departments/service.py: batch_delete_departments, one transaction for many ids.
use janus_server.Prelude.{
  ℕ, suc, ◌+◌, ◌≡◌, refl, arith, Bool, true, false, not, ◌||◌, List, [], ◌∷◌, ◌++◌, length,
  length-append, if◌then◌else◌,
}
use janus_server.Admin.Departments.{
  Department, done, refused, exists_in, has_active_children, mem, remove_at, delete_department,
}
use janus_server.Admin.Departments.Handlers.{IsForest}
use janus_server.Admin.Departments.Forest.{delete_department-IsForest}

-- src/core/query.py; the ids stand for their texts.
pub record BatchResult : Type 0 where
  pub requested : ℕ
  pub affected : ℕ
  pub skipped_ids : List ℕ

-- list(dict.fromkeys(ids)), where `seen` holds the keys so far.
unfoldable pub from_keys : List ℕ → List ℕ → List ℕ
from_keys seen [] = []
from_keys seen (x ∷ ids) =
    let again = from_keys seen ids in
    let first = x ∷ from_keys (x ∷ seen) ids in if mem x seen then again else first

-- Why the loop goes on with the next department.
unfoldable pub is_skipped : (ℕ → Bool) → ℕ → List Department → Bool
unfolding exists_in has_active_children
is_skipped has_active_members dept_id depts =
    not (exists_in dept_id depts)
    || (has_active_children dept_id depts || has_active_members dept_id)

pub record Progress : Type 0 where
  pub depts : List Department
  pub affected : ℕ
  pub skipped_ids : List ℕ

abbrev pub delete_one : Bool → ℕ → Progress → Progress
delete_one true dept_id p = record p { skipped_ids = p.skipped_ids ++ dept_id ∷ [] }
delete_one false dept_id p = record p {
  depts = remove_at dept_id p.depts;
  affected = p.affected + 1;
}

unfoldable pub delete_each : (ℕ → Bool) → List ℕ → Progress → Progress
unfolding is_skipped remove_at
delete_each has_active_members [] p = p
delete_each has_active_members (dept_id ∷ ids) p =
    delete_each has_active_members ids
      (delete_one (is_skipped has_active_members dept_id p.depts) dept_id p)

abbrev pub batch_result : List ℕ → Progress → List Department × BatchResult
batch_result requested_ids p = (
  p.depts,
  record { requested = length requested_ids; affected = p.affected; skipped_ids = p.skipped_ids },
)

unfoldable pub batch_delete_departments :
    (ℕ → Bool) → List ℕ → List Department → List Department × BatchResult
unfolding from_keys delete_each
batch_delete_departments has_active_members ids depts = batch_result (from_keys [] ids) (
    delete_each has_active_members (from_keys [] ids)
      (record { depts = depts; affected = 0; skipped_ids = [] }))

module _ (has_active_members : ℕ → Bool) where
  -- What is not skipped is what delete_department deletes.
  delete_department-not_skipped :
      (d : ℕ) (ds : List Department)
      → is_skipped has_active_members d ds ≡ false
      → delete_department has_active_members d ds ≡ done (remove_at d ds)
  unfolding is_skipped delete_department
  delete_department-not_skipped d ds h =
      go (exists_in d ds) (has_active_children d ds) (has_active_members d) h
    where
      go :
          (a b c : Bool)
          → (not a || (b || c)) ≡ false
          → (if not a
              then refused 404
              else (if b then refused 400 else (if c then refused 400 else done (remove_at d ds))))
            ≡ done (remove_at d ds)
      go true false false h = refl
      go true true c h = cc
      go true false true h = cc
      go false b c h = cc

  delete_one-IsForest :
      (b : Bool) (d : ℕ) (p : Progress)
      → is_skipped has_active_members d p.depts ≡ b
      → IsForest p.depts
      → IsForest (delete_one b d p).depts
  delete_one-IsForest true d p q forest = forest
  delete_one-IsForest false d p q forest =
      delete_department-IsForest has_active_members d p.depts (remove_at d p.depts) forest
        (delete_department-not_skipped d p.depts q)

  delete_one_counts :
      (b : Bool) (d : ℕ) (p : Progress)
      → (delete_one b d p).affected + length (delete_one b d p).skipped_ids
        ≡ suc (p.affected + length p.skipped_ids)
  delete_one_counts true d p = omega (arith, length-append p.skipped_ids (d ∷ []))
  delete_one_counts false d p = omega arith

  pub delete_each-IsForest :
      (ids : List ℕ) (p : Progress)
      → IsForest p.depts
      → IsForest (delete_each has_active_members ids p).depts
        × ((delete_each has_active_members ids p).affected
              + length (delete_each has_active_members ids p).skipped_ids
            ≡ length ids + (p.affected + length p.skipped_ids))
  unfolding delete_each
  delete_each-IsForest [] p forest = (forest, omega arith)
  delete_each-IsForest (d ∷ ids) p forest =
      let b = is_skipped has_active_members d p.depts in
      let (forest', count) =
        delete_each-IsForest ids (delete_one b d p) (delete_one-IsForest b d p refl forest) in
      (forest', omega (arith, count, delete_one_counts b d p))
