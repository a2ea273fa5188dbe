-- ===== src/Authorization/Access.antt =====
-- The checks and the filters of authorization.ts against one account of who can see what.
use Prim.Native.String.{String}
use text.Mathlib.TextEquality.{eq_iff}
use critical_path_api.Prelude.{
  ◌≡◌, ◌↔◌, ◌⊎◌, refl, inl, inr, true, ◌&&◌, ◌||◌, List, [], ◌∷◌, Option, none, some, arith,
  string_eq, contains, contains-filter, lookup, Option-cases,
}
use critical_path_api.Authorization.{
  ProjectRole, editor, viewer, Project, Tables, Checked, passed, app_error, read_only_message,
  normalize_project_role, created_by_user, is_project_member, project_role, can_access_project,
  assert_project_access, assert_can_write_project, assert_project_write, assert_task_access,
  assert_task_write, accessible_projects_filter, project_access_ids_among,
}

-- The project that an id names and the user's role on it, if it exists and the user has one.
unfoldable pub visible : Tables → String → String → Option (Project × ProjectRole)
visible db user id = elim (lookup id db.projects) [
  | none ↦ none
  | some project ↦ elim (project_role db user project) [
    | none ↦ none
    | some role ↦ some (project, role)
  ]
]

unfoldable pub visible_task : Tables → String → String → Option (Project × ProjectRole)
visible_task db user task = elim (lookup task db.tasks) [
  | none ↦ none
  | some id ↦ visible db user id
]

-- What a reader and a writer are answered.
pub read_verdict : String → Option (Project × ProjectRole) → Checked Project
read_verdict not_found none = app_error 404 not_found
read_verdict not_found (some (project, role)) = passed project

pub write_verdict : String → Option (Project × ProjectRole) → Checked Project
write_verdict not_found none = app_error 404 not_found
write_verdict not_found (some (project, viewer)) = app_error 403 read_only_message
write_verdict not_found (some (project, editor)) = passed project

access-visible :
    (db : Tables) (user id not_found : String)
    → assert_project_access db user id not_found ≡ read_verdict not_found (visible db user id)
unfolding assert_project_access can_access_project visible read_verdict
access-visible db user id not_found = elim (Option-cases (lookup id db.projects)) [
  | inl e ↦ rw (e, assert_project_access, visible) refl
  | inr (project, e) ↦ elim (Option-cases (project_role db user project)) [
    | inl e' ↦ rw (e, assert_project_access, visible, can_access_project, e') refl
    | inr (role, e') ↦ rw (e, assert_project_access, visible, can_access_project, e') refl
  ]
]

write-visible :
    (db : Tables) (user id not_found : String)
    → assert_project_write db user id not_found ≡ write_verdict not_found (visible db user id)
unfolding assert_project_write assert_can_write_project visible write_verdict
write-visible db user id not_found = elim (Option-cases (lookup id db.projects)) [
  | inl e ↦ rw (e, assert_project_write, visible) refl
  | inr (project, e) ↦ elim (Option-cases (project_role db user project)) [
    | inl e' ↦ rw (e, assert_project_write, visible, assert_can_write_project, e') refl
    | inr (editor, e') ↦ rw (e, assert_project_write, visible, assert_can_write_project, e') refl
    | inr (viewer, e') ↦ rw (e, assert_project_write, visible, assert_can_write_project, e') refl
  ]
]

task_access-visible :
    (db : Tables) (user task : String)
    → assert_task_access db user task ≡ read_verdict "Task not found" (visible_task db user task)
unfolding assert_task_access visible_task read_verdict
task_access-visible db user task = elim (Option-cases (lookup task db.tasks)) [
  | inl e ↦ rw (e, assert_task_access, visible_task) refl
  | inr (id, e) ↦
      rw (e, assert_task_access, visible_task) (access-visible db user id "Task not found")
]

task_write-visible :
    (db : Tables) (user task : String)
    → assert_task_write db user task ≡ write_verdict "Task not found" (visible_task db user task)
unfolding assert_task_write visible_task write_verdict
task_write-visible db user task = elim (Option-cases (lookup task db.tasks)) [
  | inl e ↦ rw (e, assert_task_write, visible_task) refl
  | inr (id, e) ↦
      rw (e, assert_task_write, visible_task) (write-visible db user id "Task not found")
]

-- The four checks on a project and on a task answer from what the user can see alone: what is
-- invisible to the user is answered with 404 as if it did not exist, a viewer reads and is
-- refused a write with 403, and an editor is let through.
pub asserts-visible :
    (db : Tables) (user id task not_found : String)
    → (assert_project_access db user id not_found ≡ read_verdict not_found (visible db user id))
      × (assert_project_write db user id not_found ≡ write_verdict not_found (visible db user id))
      × (assert_task_access db user task
          ≡ read_verdict "Task not found" (visible_task db user task))
      × (assert_task_write db user task
          ≡ write_verdict "Task not found" (visible_task db user task))
asserts-visible db user id task not_found = (
  access-visible db user id not_found,
  write-visible db user id not_found,
  task_access-visible db user task,
  task_write-visible db user task,
)

can_access-filter :
    (db : Tables) (user : String) (project : Project)
    → can_access_project db user project
      ≡ (created_by_user project.created_by user || is_project_member db project.id user)
unfolding can_access_project project_role is_project_member
can_access-filter db user project =
    elim (Option-cases (lookup user (db.project_members project.id))) [
      | inl e ↦ rw (can_access_project, project_role, is_project_member, e) (ground arith)
      | inr (role, e) ↦ rw (can_access_project, project_role, is_project_member, e) (ground arith)
    ]

-- Both queries agree with `canAccessProject`: the filter on projects keeps exactly the rows that the
-- user can access, and of some candidates exactly those are found that are users and can access
-- the project.
pub filters-can_access :
    (db : Tables) (user : String) (users : List String) (project : Project)
    → (accessible_projects_filter db user project ≡ can_access_project db user project)
      × (contains (project_access_ids_among db project users) user ≡ (
          contains db.app_users user
          && (contains users user && can_access_project db user project)))
unfolding accessible_projects_filter project_access_ids_among contains
filters-can_access db user [] project = ground (arith, can_access-filter db user project)
filters-can_access db user (u ∷ users) project = ground (
  arith,
  can_access-filter db user project,
  contains-filter
      (λ id.
        contains (u ∷ users) id
        && (created_by_user project.created_by id || is_project_member db project.id id))
      db.app_users user,
)

created_by_user_iff :
    (owner : Option String) (user : String)
    → (created_by_user owner user ≡ true) ↔ (owner ≡ some user)
unfolding created_by_user
created_by_user_iff none user = ground arith
created_by_user_iff (some owner) user = ground (arith, eq_iff owner user)

normalize-editor : (role : String) → (normalize_project_role role ≡ editor) ↔ (role ≡ "editor")
unfolding normalize_project_role
normalize-editor role = ground (arith, eq_iff role "editor")

-- Only the creator and a member whose stored role is exactly `editor` have the role of an editor,
-- and only the creator and members have any.
pub project_role-editor :
    (db : Tables) (user : String) (project : Project)
    → (project_role db user project ≡ some editor) ↔ (
        (project.created_by ≡ some user)
        ⊎ (lookup user (db.project_members project.id) ≡ some "editor"))
unfolding project_role
project_role-editor db user project =
    elim (Option-cases (lookup user (db.project_members project.id))) [
      | inl e ↦ rw (e, project_role) (ground (arith, created_by_user_iff project.created_by user))
      | inr (role, e) ↦
          rw (e, project_role)
            (ground (arith, created_by_user_iff project.created_by user, normalize-editor role))
    ]
