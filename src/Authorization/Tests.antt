-- ===== src/Authorization/Tests.antt =====
-- The theorems on authorization at inputs.
use Prim.Native.String.{String}
use critical_path_api.Prelude.{
  ◌≡◌, ◌↔◌, ◌⊎◌, false, ◌&&◌, [], ◌∷◌, some, string_eq, contains, lookup,
}
use critical_path_api.Authorization.{
  editor, Project, Tables, project_role, can_access_project, assert_project_access,
  assert_project_write, assert_task_access, assert_task_write, accessible_projects_filter,
  project_access_ids_among,
}
use critical_path_api.Authorization.Access.{
  visible, visible_task, read_verdict, write_verdict, asserts-visible, filters-can_access,
  project_role-editor,
}

abbrev roadmap : Project
roadmap = record { id = "p"; created_by = some "ann"; is_public = false }

-- Ann made the project, Bob edits it, Cy has a role of a later release, Dee is no member.
abbrev tables : Tables
tables = record {
  projects = ("p", roadmap) ∷ [];
  project_members = λ project. ("bob", "editor") ∷ ("cy", "commenter") ∷ [];
  tasks = ("t", "p") ∷ [];
  app_users = "ann" ∷ "bob" ∷ "cy" ∷ "dee" ∷ [];
}

asserts-visible_example :
    (assert_project_access tables "cy" "p" "gone" ≡ read_verdict "gone" (visible tables "cy" "p"))
    × (assert_project_write tables "cy" "p" "gone" ≡ write_verdict "gone" (visible tables "cy" "p"))
    × (assert_task_access tables "cy" "t"
        ≡ read_verdict "Task not found" (visible_task tables "cy" "t"))
    × (assert_task_write tables "cy" "t"
        ≡ write_verdict "Task not found" (visible_task tables "cy" "t"))
asserts-visible_example = asserts-visible tables "cy" "p" "t" "gone"

filters-can_access_example :
    (accessible_projects_filter tables "bob" roadmap ≡ can_access_project tables "bob" roadmap)
    × (contains (project_access_ids_among tables roadmap ("bob" ∷ "dee" ∷ [])) "bob" ≡ (
        contains tables.app_users "bob"
        && (contains {A = String} ("bob" ∷ "dee" ∷ []) "bob"
            && can_access_project tables "bob" roadmap)))
filters-can_access_example = filters-can_access tables "bob" ("bob" ∷ "dee" ∷ []) roadmap

project_role-editor_example : (project_role tables "cy" roadmap ≡ some editor) ↔ (
    (roadmap.created_by ≡ some "cy")
    ⊎ (lookup "cy" (tables.project_members roadmap.id) ≡ some "editor"))
project_role-editor_example = project_role-editor tables "cy" roadmap
