-- ===== src/Realtime.antt =====
-- api/src/services/realtime/state.ts: which sockets are authenticated, which projects each has
-- subscribed to, and the room of each project. A socket is a number, since the code compares
-- sockets by identity; `projectRooms` and `socketStates` are updated apart, as in the code.
use Prim.Native.String.{String}
use critical_path_api.Prelude.{
  ℕ, Bool, true, false, not, ◌&&◌, List, [], ◌∷◌, Option, none, some, map, foldl, nat_eq, string_eq,
  ◌==◌, leb, if◌then◌else◌, length, filter, contains, Map, lookup, insert, delete, add, remove,
}
pub mod Rooms
pub mod Registry
pub mod Keeps
pub mod Steps
pub mod Calls
pub mod Transport
pub mod Evict
pub mod Handshake
pub mod Deliver
pub mod Sent
pub mod Delivered
pub mod Recipients
mod Tests

pub data CredentialKind : Type 0 where
  session personal_access_token : CredentialKind

pub record SocketState : Type 0 where
  pub user_id : String
  pub credential_kind : CredentialKind
  pub credential_id : String
  pub project_ids : List String

-- The credential that a socket authenticated with.
pub record Credential : Type 0 where
  pub kind : CredentialKind
  pub id : String
  pub user_id : String

-- `socketStates` and `projectRooms`.
pub record Realtime : Type 0 where
  pub socket_states : Map ℕ SocketState
  pub project_rooms : Map String (List ℕ)

abbrev pub max_subscriptions_per_socket : ℕ
max_subscriptions_per_socket = 1000

pub register_socket : ℕ → Credential → Realtime → Realtime
register_socket socket credential r = record r {
  socket_states =
      insert socket
        (record {
          user_id = credential.user_id;
          credential_kind = credential.kind;
          credential_id = credential.id;
          project_ids = [];
        })
        r.socket_states;
}

pub get_socket_state : ℕ → Realtime → Option SocketState
get_socket_state socket r = lookup socket r.socket_states

-- `projectRooms.get(projectId)`, made when it is missing, and `room.add(socket)`.
pub join_room : ℕ → String → Map String (List ℕ) → Map String (List ℕ)
join_room socket project rooms = elim (lookup project rooms) [
  | none ↦ insert project (socket ∷ []) rooms
  | some room ↦ insert project (add socket room) rooms
]

pub subscribe_to_project : ℕ → String → Realtime → Bool × Realtime
subscribe_to_project socket project r = elim (lookup socket r.socket_states) [
  | none ↦ (false, r)
  | some state ↦
      if not (contains state.project_ids project)
        && leb max_subscriptions_per_socket (length state.project_ids)
      then (false, r)
      else (
        true,
        record {
          socket_states =
              insert socket (record state { project_ids = add project state.project_ids })
                r.socket_states;
          project_rooms = join_room socket project r.project_rooms;
        },
      )
]

-- `room.delete(socket); if (room.size === 0) projectRooms.delete(projectId)`
pub leave_room : ℕ → Map String (List ℕ) → String → Map String (List ℕ)
leave_room socket rooms project = elim (lookup project rooms) [
  | none ↦ rooms
  | some room ↦
      let room' = remove socket room in
      if length room' == 0 then delete project rooms else insert project room' rooms
]

pub unsubscribe_from_project : ℕ → String → Realtime → Realtime
unsubscribe_from_project socket project r = record {
  socket_states = elim (lookup socket r.socket_states) [
    | none ↦ r.socket_states
    | some state ↦
        insert socket (record state { project_ids = remove project state.project_ids })
          r.socket_states
  ];
  project_rooms = leave_room socket r.project_rooms project;
}

pub remove_socket : ℕ → Realtime → Realtime
remove_socket socket r = record {
  socket_states = delete socket r.socket_states;
  project_rooms = elim (lookup socket r.socket_states) [
    | none ↦ r.project_rooms
    | some state ↦ foldl (leave_room socket) r.project_rooms state.project_ids
  ];
}

pub project_sockets : String → Realtime → List ℕ
project_sockets project r = elim (lookup project r.project_rooms) [ none ↦ [] | some room ↦ room ]

pub authed_socket_entries : Realtime → List (ℕ × SocketState)
authed_socket_entries r = r.socket_states

pub sockets_for_user : String → Realtime → List ℕ
sockets_for_user user r =
    map (λ entry. entry.0)
      (filter (λ entry. string_eq.beq entry.1.user_id user) (authed_socket_entries r))

pub same_kind : CredentialKind → CredentialKind → Bool
same_kind session session = true
same_kind personal_access_token personal_access_token = true
same_kind session personal_access_token = false
same_kind personal_access_token session = false

pub sockets_for_credential : CredentialKind → String → Realtime → List ℕ
sockets_for_credential kind id r =
    map (λ entry. entry.0)
      (filter
        (λ entry. same_kind entry.1.credential_kind kind && string_eq.beq entry.1.credential_id id)
        (authed_socket_entries r))

abbrev pub reset_realtime_state : Realtime
reset_realtime_state = record { socket_states = []; project_rooms = [] }
