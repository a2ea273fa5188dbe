-- ===== src/Realtime/Deliver.antt =====
-- api/src/services/realtime/delivery.ts: the sockets that an event is sent to, in order. What a
-- socket's `readyState` says and the query `projectSharerIdsAmong` are arguments. Where there is no
-- candidate, or no user left to ask about, the code leaves out a query; the model asks it for
-- nobody, and as little is sent.
use Prim.Native.String.{String}
use critical_path_api.Prelude.{
  ℕ, Bool, true, false, not, ◌&&◌, List, [], ◌∷◌, Option, none, some, map, foldl, nat_eq, string_eq,
  if◌then◌else◌, filter, contains, lookup, add,
}
use critical_path_api.Authorization.{
  ProjectRole, editor, viewer, Tables, normalize_project_role, created_by_user,
}
use critical_path_api.Realtime.{
  SocketState, Realtime, get_socket_state, authed_socket_entries, project_sockets,
}

-- `entry.type`: `user_updated`, with the id of the changed user in `entry.data`, or any other.
pub data EventType : Type 0 where
  user_updated : String → EventType
  other_event : EventType

pub record BusEntry : Type 0 where
  pub type : EventType
  pub project_id : Option String
  pub recipient_user_ids : Option (List String)
  pub broadcast : Bool
  pub editors_only : Bool

abbrev pub Candidates : Type 0
Candidates = List (ℕ × SocketState)

-- `[...new Set(candidates.map(([, state]) => state.userId))]`
unfoldable pub distinct_user_ids : Candidates → List String
distinct_user_ids candidates = foldl (λ ids entry. add entry.1.user_id ids) [] candidates

-- `flatMap((socket) => { const state = getSocketState(socket); return state ? [...] : [] })`
unfoldable pub with_state : Realtime → List ℕ → Candidates
with_state r [] = []
with_state r (socket ∷ sockets) =
    let rest = with_state r sockets in
    elim (get_socket_state socket r) [ none ↦ rest | some state ↦ (socket, state) ∷ rest ]

-- The loop over member rows: `if (editorsOnly && role !== 'editor') continue; allowed.add(userId)`
unfoldable pub is_editor : ProjectRole → Bool
is_editor editor = true
is_editor viewer = false

unfoldable pub allow_members : Bool → List (String × String) → List String → List String
allow_members editors_only rows allowed =
    foldl
      (λ allowed row.
        if editors_only && not (is_editor (normalize_project_role row.1))
        then allowed
        else add row.0 allowed)
      allowed rows

-- The members among the users that are not allowed yet: `where('user_id', 'in', unresolved)`.
unfoldable pub unresolved_rows : Tables → String → List String → List (String × String)
unresolved_rows db project unresolved =
    filter (λ row. contains unresolved row.0) (db.project_members project)

unfoldable pub is_named : Option (List String) → String → Bool
is_named none user = true
is_named (some named) user = contains named user

module _ (is_open : ℕ → Bool) (project_sharer_ids_among : String → List String → List String) where
  unfoldable pub send_to : Candidates → List String → List ℕ
  send_to candidates allowed =
      map (λ entry. entry.0)
        (filter (λ entry. contains allowed entry.1.user_id && is_open entry.0) candidates)

  unfoldable pub deliver_user_updated : String → Realtime → List ℕ
  deliver_user_updated changed r =
      let candidates = authed_socket_entries r in
      let user_ids = distinct_user_ids candidates in
      let allowed = filter (λ user. string_eq.beq user changed) user_ids in
      let unresolved = filter (λ user. not (contains allowed user)) user_ids in
      send_to candidates (
        foldl (λ allowed user. add user allowed) allowed
          (project_sharer_ids_among changed unresolved))

  unfoldable pub candidates_of : BusEntry → String → Realtime → Candidates
  candidates_of entry project r =
      if entry.broadcast then authed_socket_entries r else with_state r (project_sockets project r)

  unfoldable pub deliver_project_scoped : Tables → BusEntry → Realtime → List ℕ
  deliver_project_scoped db entry r = elim entry.project_id [
    | none ↦ []
    | some id ↦ elim (lookup id db.projects) [
      | none ↦ []
      | some project ↦
          let candidates = candidates_of entry id r in
          let user_ids =
            filter (is_named entry.recipient_user_ids) (distinct_user_ids candidates) in
          let allowed = filter (λ user. created_by_user project.created_by user) user_ids in
          let unresolved = filter (λ user. not (contains allowed user)) user_ids in
          send_to candidates
            (allow_members entry.editors_only (unresolved_rows db id unresolved) allowed)
    ]
  ]

  unfoldable pub deliver : Tables → BusEntry → Realtime → List ℕ
  deliver db entry r =
      if entry.editors_only
      then deliver_project_scoped db entry r
      else elim entry.recipient_user_ids [
        | some ids ↦ send_to (authed_socket_entries r) ids
        | none ↦ elim entry.type [
          | user_updated changed ↦ deliver_user_updated changed r
          | other_event ↦ deliver_project_scoped db entry r
        ]
      ]
