-- ===== src/Admin/Departments/Tests.antt =====
-- Runs on a small forest.
use janus_server.Prelude.{◌==◌, ℕ, ◌≡◌, ◌≢◌, refl, false, Option, none, some, List, [], ◌∷◌, arith}
use janus_server.Prelude.Int.{pos}
use janus_server.Admin.Departments.{
  Department, DepartmentCreate, DepartmentUpdate, done, refused, running, exists_in, parent_of,
  create_department, update_department, delete_department,
}
use janus_server.Admin.Departments.Handlers.{IsForest}
use janus_server.Admin.Departments.Forest.{
  update_department-IsForest, update_department-ne-running, delete_department-IsForest,
}
use janus_server.Admin.Departments.Batch.{batch_delete_departments}
use janus_server.Admin.Departments.Asked.{IsBatch, batch_delete_departments-IsForest}
use janus_server.Admin.Departments.Listing.{list_departments}
use janus_server.Admin.Departments.Listed.{IsListing, list_departments-IsListing}
use janus_server.Admin.Departments.Creation.{create_department-IsForest}

abbrev under : Option ℕ → DepartmentCreate
under p = record { name = "d"; parent_id = p; sort_order = pos 0; remark = none }

abbrev row : ℕ → Option ℕ → Department
row x p = record {
  id = x;
  name = "d";
  parent_id = p;
  sort_order = pos 0;
  remark = none;
  updated_by = 9;
}

empty-IsForest : IsForest []
unfolding parent_of
empty-IsForest = record { rooted = λ x. (0, refl); closed = λ x y e. absurd (ground arith) }

one-IsForest : IsForest (row 1 none ∷ [])
unfolding create_department exists_in
one-IsForest = create_department-IsForest 9 1 (under none) [] _ empty-IsForest refl refl

two-IsForest : IsForest (row 2 (some 1) ∷ row 1 none ∷ [])
unfolding create_department exists_in
two-IsForest =
    create_department-IsForest 9 2 (under (some 1)) (row 1 none ∷ []) _ one-IsForest refl refl

create_department-IsForest_example : IsForest (row 3 (some 2) ∷ row 2 (some 1) ∷ row 1 none ∷ [])
unfolding create_department exists_in
create_department-IsForest_example =
    create_department-IsForest 9 3 (under (some 2)) (row 2 (some 1) ∷ row 1 none ∷ [])
      (row 3 (some 2) ∷ row 2 (some 1) ∷ row 1 none ∷ []) two-IsForest refl refl

three-IsForest : IsForest (row 3 (some 2) ∷ row 2 (some 1) ∷ row 1 none ∷ [])
unfolding create_department exists_in
three-IsForest =
    create_department-IsForest 9 3 (under (some 2)) (row 2 (some 1) ∷ row 1 none ∷ []) _
      two-IsForest refl refl

abbrev moved_to : ℕ → DepartmentUpdate
moved_to p = record { name = none; parent_id = some (some p); sort_order = none; remark = none }

-- A department does not move under its own child.
cycle_refused :
    update_department 9 1 (moved_to 3) (row 3 (some 2) ∷ row 2 (some 1) ∷ row 1 none ∷ [])
    ≡ refused 400
unfolding update_department
cycle_refused = refl

update_department-IsForest_example : IsForest (row 3 (some 1) ∷ row 2 (some 1) ∷ row 1 none ∷ [])
unfolding update_department
update_department-IsForest_example =
    update_department-IsForest 9 3 (moved_to 1) (row 3 (some 2) ∷ row 2 (some 1) ∷ row 1 none ∷ [])
      (row 3 (some 1) ∷ row 2 (some 1) ∷ row 1 none ∷ []) three-IsForest refl

-- Two rows that are each other's parents.
update_department-ne-running_example :
    update_department 9 3 (moved_to 1) (row 3 none ∷ row 2 (some 1) ∷ row 1 (some 2) ∷ []) ≢ running
update_department-ne-running_example =
    update_department-ne-running 9 3 (moved_to 1)
      (row 3 none ∷ row 2 (some 1) ∷ row 1 (some 2) ∷ [])

delete_department-IsForest_example : IsForest (row 2 (some 1) ∷ row 1 none ∷ [])
unfolding delete_department
delete_department-IsForest_example =
    delete_department-IsForest (λ x. false) 3 (row 3 (some 2) ∷ row 2 (some 1) ∷ row 1 none ∷ [])
      (row 2 (some 1) ∷ row 1 none ∷ []) three-IsForest refl

abbrev three : List Department
three = row 3 (some 2) ∷ row 2 (some 1) ∷ row 1 none ∷ []

-- The parent is skipped, since its child stands.
batch_delete_departments_run :
    (batch_delete_departments (λ x. false) (3 ∷ 1 ∷ 3 ∷ []) three).1.skipped_ids ≡ 1 ∷ []
unfolding batch_delete_departments
batch_delete_departments_run = refl

batch_delete_departments-IsForest_example :
    IsBatch
      (λ x. false)
      (3 ∷ 1 ∷ 3 ∷ [])
      (batch_delete_departments (λ x. false) (3 ∷ 1 ∷ 3 ∷ []) three).0
      (batch_delete_departments (λ x. false) (3 ∷ 1 ∷ 3 ∷ []) three).1
batch_delete_departments-IsForest_example =
    batch_delete_departments-IsForest (λ x. false) (3 ∷ 1 ∷ 3 ∷ []) three three-IsForest

-- A match is listed with the departments above it.
list_departments_run :
    list_departments (some (λ d. d.id == 2)) three ≡ done (row 2 (some 1) ∷ row 1 none ∷ [])
unfolding list_departments
list_departments_run = refl

list_departments-IsListing_example :
    (rows : List Department) × (list_departments (some (λ d. d.id == 2)) three ≡ done rows)
    × IsListing (λ d. d.id == 2) three rows
list_departments-IsListing_example = list_departments-IsListing (λ d. d.id == 2) three
