-- ===== src/Authorization.antt =====
-- api/src/services/authorization.ts: who may read and write a project. The tables are read by key;
-- a query that the code runs is a lookup or a filter of the model's tables. A check returns what
-- the code returns, or the `AppError` that it throws.
use Prim.Native.String.{String}
use critical_path_api.Prelude.{
  ℕ, Bool, true, false, ◌&&◌, ◌||◌, List, [], ◌∷◌, Option, none, some, string_eq, if◌then◌else◌,
  filter, contains, Map, lookup,
}
pub mod Access
mod Tests

pub data ProjectRole : Type 0 where
  editor viewer : ProjectRole

pub record Project : Type 0 where
  pub id : String
  pub created_by : Option String
  pub is_public : Bool

-- The tables: projects by id, the role of each member of a project by user, the project of each
-- task, and the users' ids.
pub record Tables : Type 0 where
  pub projects : Map String Project
  pub project_members : String → Map String String
  pub tasks : Map String String
  pub app_users : List String

-- What a check ends with: a result, or `new AppError(status, message)`.
pub data Checked {ℓ} (A : Type ℓ) : Type ℓ where
  passed : A → Checked A
  app_error : ℕ → String → Checked A

abbrev pub read_only_message : String
read_only_message = "Read-only access to this project"

unfoldable pub normalize_project_role : String → ProjectRole
normalize_project_role role = if string_eq.beq role "editor" then editor else viewer

-- `project.created_by === userId`
unfoldable pub created_by_user : Option String → String → Bool
created_by_user none user = false
created_by_user (some owner) user = string_eq.beq owner user

pub is_project_member : Tables → String → String → Bool
is_project_member db project user = elim (lookup user (db.project_members project)) [
  | none ↦ false
  | some _ ↦ true
]

unfoldable pub project_role : Tables → String → Project → Option ProjectRole
unfolding created_by_user
project_role db user project =
    if created_by_user project.created_by user
    then some editor
    else elim (lookup user (db.project_members project.id)) [
      | none ↦ none
      | some role ↦ some (normalize_project_role role)
    ]

pub can_access_project : Tables → String → Project → Bool
can_access_project db user project = elim (project_role db user project) [
  | none ↦ false
  | some _ ↦ true
]

pub assert_project_access : Tables → String → String → String → Checked Project
assert_project_access db user id not_found = elim (lookup id db.projects) [
  | none ↦ app_error 404 not_found
  | some project ↦
      if can_access_project db user project then passed project else app_error 404 not_found
]

pub assert_can_write_project : Tables → String → Project → String → Checked (Unit {0})
assert_can_write_project db user project not_found = elim (project_role db user project) [
  | none ↦ app_error 404 not_found
  | some viewer ↦ app_error 403 read_only_message
  | some editor ↦ passed tt
]

pub assert_project_write : Tables → String → String → String → Checked Project
assert_project_write db user id not_found = elim (lookup id db.projects) [
  | none ↦ app_error 404 not_found
  | some project ↦ elim (assert_can_write_project db user project not_found) [
    | passed _ ↦ passed project
    | app_error status message ↦ app_error status message
  ]
]

pub assert_project_owned_by : Project → String → String → Checked (Unit {0})
assert_project_owned_by project user forbidden =
    if created_by_user project.created_by user then passed tt else app_error 403 forbidden

pub assert_public_project : Project → Checked (Unit {0})
assert_public_project project =
    if project.is_public then passed tt else app_error 404 "This board is not public"

pub assert_task_access : Tables → String → String → Checked Project
assert_task_access db user task = elim (lookup task db.tasks) [
  | none ↦ app_error 404 "Task not found"
  | some project ↦ assert_project_access db user project "Task not found"
]

pub assert_task_write : Tables → String → String → Checked Project
assert_task_write db user task = elim (lookup task db.tasks) [
  | none ↦ app_error 404 "Task not found"
  | some project ↦ assert_project_write db user project "Task not found"
]

-- The SQL condition, evaluated on a row of `project`.
pub accessible_projects_filter : Tables → String → Project → Bool
accessible_projects_filter db user project =
    created_by_user project.created_by user || is_project_member db project.id user

pub project_access_ids_among : Tables → Project → List String → List String
project_access_ids_among db project [] = []
project_access_ids_among db project (user ∷ users) =
    filter
      (λ id.
        contains (user ∷ users) id
        && (created_by_user project.created_by id || is_project_member db project.id id))
      db.app_users
