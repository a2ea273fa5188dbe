-- ===== src/Realtime/Delivered.antt =====
-- Which sockets delivery.ts sends an event to, told by what authorization.ts lets a user see.
use Prim.Native.String.{String}
use critical_path_api.Prelude.{
  ℕ, ◌≡◌, refl, inl, inr, Bool, true, false, not, ◌&&◌, ◌||◌, List, [], ◌∷◌, Option, none, some,
  arith, nat_eq, string_eq, ==_iff, if◌then◌else◌, filter, contains, lookup, Unique, Bool-cases,
  Option-cases,
}
use critical_path_api.Authorization.{
  ProjectRole, editor, viewer, Project, Tables, created_by_user, project_role,
}
use critical_path_api.Authorization.Access.{visible}
use critical_path_api.Realtime.{
  SocketState, Realtime, get_socket_state, authed_socket_entries, project_sockets,
}
use critical_path_api.Realtime.Rooms.{members}
use critical_path_api.Realtime.Registry.{in_room}
use critical_path_api.Realtime.Evict.{chosen, contains-chosen}
use critical_path_api.Realtime.Deliver.{
  user_updated, other_event, BusEntry, distinct_user_ids, with_state, is_editor, is_named, send_to,
  candidates_of, deliver_project_scoped,
}
use critical_path_api.Realtime.Sent.{
  distinct_user_ids-authed, distinct_user_ids-room, contains-distinct_user_ids, counts,
  contains-allowed,
}

-- What the primary keys of the tables promise.
pub record TablesOk (db : Tables) : Type 0 where
  pub keyed :
      (id : String) (project : Project) → lookup id db.projects ≡ some project → project.id ≡ id
  pub members_unique : (id : String) → Unique (db.project_members id)

-- A role suffices for an event: any role, or an editor's if the event is for editors.
pub suffices : Bool → Option (Project × ProjectRole) → Bool
suffices editors_only none = false
suffices editors_only (some (project, editor)) = true
suffices editors_only (some (project, viewer)) = not editors_only

-- For an event of a project: the socket is in the room of the project or the event goes to all, its
-- user is named if any are, and can see the project.
pub scoped : Tables → BusEntry → Realtime → ℕ → SocketState → Bool
scoped db entry r t state = elim entry.project_id [
  | none ↦ false
  | some id ↦
      (entry.broadcast || in_room r id t)
      && (is_named entry.recipient_user_ids state.user_id
          && suffices entry.editors_only (visible db state.user_id id))
]

scoped-none :
    (db : Tables) (entry : BusEntry) (r : Realtime) (t : ℕ) (state : SocketState)
    → entry.project_id ≡ none
    → scoped db entry r t state ≡ false
unfolding scoped
scoped-none db entry r t state e = rw (e, scoped) refl

scoped-some :
    (db : Tables) (entry : BusEntry) (r : Realtime) (t : ℕ) (state : SocketState) (id : String)
    → entry.project_id ≡ some id
    → scoped db entry r t state ≡ (
        (entry.broadcast || contains (project_sockets id r) t)
        && (is_named entry.recipient_user_ids state.user_id
            && suffices entry.editors_only (visible db state.user_id id)))
unfolding scoped in_room members project_sockets
scoped-some db entry r t state id e = rw (e, scoped) refl

visible-missing :
    (db : Tables) (user id : String) → lookup id db.projects ≡ none → visible db user id ≡ none
unfolding visible
visible-missing db user id e = rw (e, visible) refl

module _ (is_open : ℕ → Bool) (project_sharer_ids_among : String → List String → List String)
    (shares : String → String → Bool) where
  -- Who is sent an event, of the sockets that have a state.
  unfoldable pub addressed : Tables → BusEntry → Realtime → ℕ → SocketState → Bool
  addressed db entry r t state =
      if entry.editors_only then scoped db entry r t state else elim entry.recipient_user_ids [
        | some ids ↦ contains ids state.user_id
        | none ↦ elim entry.type [
          | user_updated changed ↦
              string_eq.beq state.user_id changed || shares changed state.user_id
          | other_event ↦ scoped db entry r t state
        ]
      ]

  unfoldable pub receives : Tables → BusEntry → Realtime → ℕ → Bool
  receives db entry r t = elim (get_socket_state t r) [
    | none ↦ false
    | some state ↦ is_open t && addressed db entry r t state
  ]

  pub send_to-authed :
      (allowed : List String) (r : Realtime) (t : ℕ)
      → Unique r.socket_states
      → contains (send_to is_open project_sharer_ids_among (authed_socket_entries r) allowed) t
        ≡ elim (get_socket_state t r) [
          | none ↦ false
          | some state ↦ contains allowed state.user_id && is_open t
        ]
  unfolding send_to chosen authed_socket_entries get_socket_state
  send_to-authed allowed r t u =
      contains-chosen (λ entry. contains allowed entry.1.user_id && is_open entry.0) t
        r.socket_states u

  send_to-room :
      (allowed : List String) (r : Realtime) (room : List ℕ) (t : ℕ)
      → contains (send_to is_open project_sharer_ids_among (with_state r room) allowed) t ≡ (
          contains room t && elim (get_socket_state t r) [
            | none ↦ false
            | some state ↦ contains allowed state.user_id && is_open t
          ])
  unfolding send_to with_state contains filter
  send_to-room allowed r [] t = refl
  send_to-room allowed r (s ∷ room) t = ground (arith, send_to-room allowed r room t, ==_iff s t)

  candidate : BusEntry → String → Realtime → ℕ → Bool
  candidate entry id r t = entry.broadcast || contains (project_sockets id r) t

  send_to-candidates :
      (allowed : List String) (entry : BusEntry) (id : String) (r : Realtime) (t : ℕ)
      → Unique r.socket_states
      → contains
          (send_to is_open project_sharer_ids_among
            (candidates_of is_open project_sharer_ids_among entry id r)
            allowed)
          t
        ≡ (candidate entry id r t && elim (get_socket_state t r) [
          | none ↦ false
          | some state ↦ contains allowed state.user_id && is_open t
        ])
  unfolding candidates_of candidate
  send_to-candidates allowed entry id r t u = elim (Bool-cases entry.broadcast) [
    | inl b ↦ rw (b, candidates_of, candidate) (send_to-authed allowed r t u)
    | inr b ↦ rw (b, candidates_of, candidate) (send_to-room allowed r (project_sockets id r) t)
  ]

  candidate-asked :
      (entry : BusEntry) (id : String) (r : Realtime) (t : ℕ) (state : SocketState)
      → get_socket_state t r ≡ some state
      → candidate entry id r t ≡ true
      → contains
          (distinct_user_ids (candidates_of is_open project_sharer_ids_among entry id r))
          state.user_id
        ≡ true
  unfolding candidates_of candidate authed_socket_entries get_socket_state
  candidate-asked entry id r t state e c =
      rw
        (contains-distinct_user_ids (candidates_of is_open project_sharer_ids_among entry id r)
          state.user_id)
        (elim (Bool-cases entry.broadcast) [
          | inl b ↦ rw (b, candidates_of) (distinct_user_ids-authed r.socket_states t state e)
          | inr b ↦
              rw (b, candidates_of)
                (distinct_user_ids-room r (project_sockets id r) t state (ground arith) e)
        ])

  suffices-visible :
      (db : Tables) (editors_only : Bool) (user id : String) (project : Project)
      → TablesOk db
      → lookup id db.projects ≡ some project
      → suffices editors_only (visible db user id) ≡ (
          created_by_user project.created_by user || elim (lookup user (db.project_members id)) [
            | none ↦ false
            | some role ↦ counts editors_only role
          ])
  unfolding visible project_role suffices counts is_editor
  suffices-visible db editors_only user id project ok e =
      rw (e, visible, project_role, ok.keyed id project e)
        (elim (Option-cases (lookup user (db.project_members id))) [
          | inl e' ↦ rw (e') (ground arith)
          | inr (role, e') ↦ rw (e') (ground arith)
        ])

  -- The event of a project that exists.
  deliver_project_scoped-some :
      (db : Tables) (entry : BusEntry) (r : Realtime) (t : ℕ) (id : String) (project : Project)
      → TablesOk db
      → Unique r.socket_states
      → entry.project_id ≡ some id
      → lookup id db.projects ≡ some project
      → contains (deliver_project_scoped is_open project_sharer_ids_among db entry r) t
        ≡ elim (get_socket_state t r) [
          | none ↦ false
          | some state ↦ is_open t && scoped db entry r t state
        ]
  unfolding deliver_project_scoped candidate
  deliver_project_scoped-some db entry r t id project ok u e e' =
      let users = distinct_user_ids (candidates_of is_open project_sharer_ids_among entry id r) in
      rw (e, e', deliver_project_scoped)
        (rw (send_to-candidates _ entry id r t u) (elim (Option-cases (get_socket_state t r)) [
          | inl n ↦ rw (n) (ground arith)
          | inr (state, n) ↦
              rw
                (
                  n,
                  scoped-some db entry r t state id e,
                  contains-allowed db id project.created_by entry.recipient_user_ids
                      entry.editors_only users state.user_id (ok.members_unique id),
                  suffices-visible db entry.editors_only state.user_id id project ok e',
                )
                (ground (arith, candidate-asked entry id r t state n))
        ]))

  pub deliver_project_scoped-scoped :
      (db : Tables) (entry : BusEntry) (r : Realtime) (t : ℕ)
      → TablesOk db
      → Unique r.socket_states
      → contains (deliver_project_scoped is_open project_sharer_ids_among db entry r) t
        ≡ elim (get_socket_state t r) [
          | none ↦ false
          | some state ↦ is_open t && scoped db entry r t state
        ]
  unfolding deliver_project_scoped suffices contains
  deliver_project_scoped-scoped db entry r t ok u = elim (Option-cases entry.project_id) [
    | inl e ↦
        rw (e, deliver_project_scoped)
          (elim (Option-cases (get_socket_state t r)) [
            | inl n ↦ rw (n) refl
            | inr (state, n) ↦ rw (n, scoped-none db entry r t state e) (ground arith)
          ])
    | inr (id, e) ↦ elim (Option-cases (lookup id db.projects)) [
      | inl e' ↦
          rw (e, e', deliver_project_scoped)
            (elim (Option-cases (get_socket_state t r)) [
              | inl n ↦ rw (n) refl
              | inr (state, n) ↦
                  rw
                    (n, scoped-some db entry r t state id e, visible-missing db state.user_id id e')
                    (ground arith)
            ])
      | inr (project, e') ↦ deliver_project_scoped-some db entry r t id project ok u e e'
    ]
  ]
