-- ===== src/Admin/Departments.antt =====
-- src/admin/departments/service.py: the tree of departments. The state is the list of the rows that
-- are not deleted; each operation is one transaction, which locks the rows that it checks.
pub mod Walk
pub mod Trees
pub mod Handlers
pub mod Forest
pub mod Creation
pub mod Batch
pub mod Asked
pub mod Listing
pub mod Kept
pub mod Listed
mod Tests
use Prim.Native.String.{String}
use mathlib.Core.Option
use janus_server.Prelude.{
  ℕ, zero, suc, ◌+◌, ◌==◌, Bool, true, false, not, ◌||◌, Option, none, some, List, [], ◌∷◌, map,
  length, if◌then◌else◌,
}
use janus_server.Prelude.Int.{ℤ}

-- The fields that the service reads or writes.
pub record Department : Type 0 where
  pub id : ℕ
  pub name : String
  pub parent_id : Option ℕ
  pub sort_order : ℤ
  pub remark : Option String
  pub updated_by : ℕ

pub record DepartmentCreate : Type 0 where
  pub name : String
  pub parent_id : Option ℕ
  pub sort_order : ℤ
  pub remark : Option String

-- `none` is a field that the request does not set. A null name or sort order, which the columns
-- refuse, is left out.
pub record DepartmentUpdate : Type 0 where
  pub name : Option String
  pub parent_id : Option (Option ℕ)
  pub sort_order : Option ℤ
  pub remark : Option (Option String)

-- What a service call ends with: a value, AppError with a status, or no end within the fuel.
pub data Reply (A : Type 0) : Type 0 where
  done : A → Reply A
  refused : ℕ → Reply A
  running : Reply A

-- Whether `repo.get` finds a row, and the `parent_id` of the row that it finds.
unfoldable pub exists_in : ℕ → List Department → Bool
exists_in x [] = false
exists_in x (d ∷ ds) = if d.id == x then true else exists_in x ds

unfoldable pub parent_of : List Department → ℕ → Option ℕ
parent_of [] x = none
parent_of (d ∷ ds) x = if d.id == x then d.parent_id else parent_of ds x

unfoldable pub has_active_children : ℕ → List Department → Bool
has_active_children x [] = false
has_active_children x (d ∷ ds) =
    elim d.parent_id [ none ↦ false | some p ↦ p == x ] || has_active_children x ds

abbrev pub mem : ℕ → List ℕ → Bool
mem x [] = false
mem x (y ∷ ys) = if y == x then true else mem x ys

-- The walk over the ancestors: whether it meets the department.
unfoldable pub walk : ℕ → (ℕ → Option ℕ) → ℕ → List ℕ → Option ℕ → Option Bool
walk zero parent dept_id seen cursor = none
walk (suc fuel) parent dept_id seen none = some false
walk (suc fuel) parent dept_id seen (some c) =
    let rest = walk fuel parent dept_id (c ∷ seen) (parent c) in
    if mem c seen then some false else if c == dept_id then some true else rest

-- `_validate_reparent`: `none` is a pass, else how the call ends.
unfoldable pub validate_reparent : List Department → ℕ → Option ℕ → Reply (Unit {0})
unfolding exists_in parent_of walk
validate_reparent depts dept_id none = done tt
validate_reparent depts dept_id (some new_parent) =
    if new_parent == dept_id
    then refused 400
    else if not (exists_in new_parent depts)
    then refused 400
    else elim (walk (length depts + 2) (parent_of depts) dept_id [] (some new_parent)) [
      | none ↦ running
      | some true ↦ refused 400
      | some false ↦ done tt
    ]

-- The changes that a request makes to a row.
unfoldable pub apply_update : ℕ → DepartmentUpdate → Department → Department
apply_update actor payload d = record {
  id = d.id;
  name = Option.get_or payload.name d.name;
  parent_id = Option.get_or payload.parent_id d.parent_id;
  sort_order = Option.get_or payload.sort_order d.sort_order;
  remark = Option.get_or payload.remark d.remark;
  updated_by = actor;
}

-- The row with the id becomes f of it.
unfoldable pub update_at : ℕ → (Department → Department) → List Department → List Department
update_at x f [] = []
update_at x f (d ∷ ds) = let rest = update_at x f ds in (if d.id == x then f d else d) ∷ rest

unfoldable pub remove_at : ℕ → List Department → List Department
remove_at x [] = []
remove_at x (d ∷ ds) = let rest = remove_at x ds in if d.id == x then rest else d ∷ rest

unfoldable pub create_department :
    ℕ → ℕ → DepartmentCreate → List Department → Reply (List Department)
unfolding exists_in
create_department actor new_id payload depts =
    let row : Department = record {
      id = new_id;
      name = payload.name;
      parent_id = payload.parent_id;
      sort_order = payload.sort_order;
      remark = payload.remark;
      updated_by = actor;
    } in
    elim payload.parent_id [
      | none ↦ done (row ∷ depts)
      | some p ↦ if exists_in p depts then done (row ∷ depts) else refused 400
    ]

-- `if "parent_id" in values`.
unfoldable pub validate_update : List Department → ℕ → Option (Option ℕ) → Reply (Unit {0})
unfolding validate_reparent
validate_update depts dept_id none = done tt
validate_update depts dept_id (some new_parent) = validate_reparent depts dept_id new_parent

unfoldable pub update_department :
    ℕ → ℕ → DepartmentUpdate → List Department → Reply (List Department)
unfolding exists_in validate_update update_at apply_update
update_department actor dept_id payload depts =
    if not (exists_in dept_id depts)
    then refused 404
    else elim (validate_update depts dept_id payload.parent_id) [
      | done u ↦ done (update_at dept_id (apply_update actor payload) depts)
      | refused status ↦ refused status
      | running ↦ running
    ]

-- Whether a department has members is asked of the users' table.
unfoldable pub delete_department : (ℕ → Bool) → ℕ → List Department → Reply (List Department)
unfolding exists_in has_active_children remove_at
delete_department has_active_members dept_id depts =
    if not (exists_in dept_id depts)
    then refused 404
    else if has_active_children dept_id depts
    then refused 400
    else if has_active_members dept_id
    then refused 400
    else done (remove_at dept_id depts)
