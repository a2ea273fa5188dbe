-- ===== src/Realtime/Tests.antt =====
-- The registry's theorems at inputs.
use Prim.Native.String.{String}
use critical_path_api.Prelude.{
  ℕ, some, arith, string_eq, filter, contains-filter, Bool, true, false, add, ◌≡◌, refl, List, [],
  ◌∷◌, none, nat_eq, string_eq, filter, contains, lookup, insert, delete, add, remove, Unique,
}
use text.Mathlib.TextEquality.{eq_iff}
use critical_path_api.Authorization.{Project, Tables, created_by_user, normalize_project_role}
use critical_path_api.Realtime.Deliver.{
  other_event, BusEntry, deliver, deliver_project_scoped, candidates_of, with_state,
  distinct_user_ids, is_named, allow_members, unresolved_rows, send_to, is_editor,
}
use critical_path_api.Realtime.Delivered.{TablesOk, receives}
use critical_path_api.Realtime.Recipients.{deliver-receives}
use critical_path_api.Realtime.{
  project_sockets, session, personal_access_token, SocketState, Credential, Realtime,
  register_socket, get_socket_state, join_room, subscribe_to_project, leave_room,
  unsubscribe_from_project,
}
use critical_path_api.Realtime.Registry.{in_room, Consistent}
use critical_path_api.Realtime.Steps.{
  Call, register, subscribe, unsubscribe, apply, Allowed, Reached, started, called,
  Reached-Consistent,
}
use critical_path_api.Realtime.Calls.{occupied, owner, owned, in_room-apply}
use critical_path_api.Realtime.Transport.{accept, sessions_revoked}
use critical_path_api.Realtime.Evict.{Revokes, revoked_by, sessions_revoked-Revokes}
use critical_path_api.Realtime.Handshake.{Accepted, accept-Accepted}

abbrev ann : Credential
ann = record { kind = session; id = "s1"; user_id = "ann" }

abbrev bob : Credential
bob = record { kind = personal_access_token; id = "t1"; user_id = "bob" }

-- Two sockets in one room, one of them in a second room as well.
abbrev state_of : Credential → List String → SocketState
state_of c ps = record {
  user_id = c.user_id;
  credential_kind = c.kind;
  credential_id = c.id;
  project_ids = ps;
}

abbrev two_sockets : Realtime
two_sockets = record {
  socket_states = (1, state_of ann ("p" ∷ [])) ∷ (2, state_of bob ("p" ∷ "q" ∷ [])) ∷ [];
  project_rooms = ("p", 1 ∷ 2 ∷ []) ∷ ("q", 2 ∷ []) ∷ [];
}

abbrev calls : List Call
calls = register 1 ann ∷ subscribe 1 "p" ∷ register 2 bob ∷ subscribe 2 "p" ∷ subscribe 2 "q" ∷ []

abbrev run : Realtime → List Call → Realtime
run r [] = r
run r (c ∷ cs) = run (apply c r) cs

two_sockets-Reached : Reached two_sockets
unfolding apply Allowed get_socket_state register_socket subscribe_to_project join_room lookup
    insert add contains
two_sockets-Reached = called (subscribe 2 "q") _ tt (
    called (subscribe 2 "p") _ tt (
      called (register 2 bob) _ refl
        (called (subscribe 1 "p") _ tt (called (register 1 ann) _ refl started))))

Reached-Consistent_example : Consistent two_sockets
Reached-Consistent_example = Reached-Consistent two_sockets two_sockets-Reached

in_room-apply_example :
    (in_room (apply (unsubscribe 2 "q") two_sockets) "q" 2
      ≡ occupied (unsubscribe 2 "q") two_sockets "q" 2)
    × (owner 2 (apply (unsubscribe 2 "q") two_sockets) ≡ owned (unsubscribe 2 "q") two_sockets 2)
in_room-apply_example =
    in_room-apply (unsubscribe 2 "q") two_sockets "q" 2 Reached-Consistent_example

empty_room_dropped : (apply (unsubscribe 2 "q") two_sockets).project_rooms ≡ ("p", 1 ∷ 2 ∷ []) ∷ []
unfolding apply unsubscribe_from_project leave_room lookup insert delete remove filter
empty_room_dropped = refl

newcomer : get_socket_state 3 two_sockets ≡ none
unfolding get_socket_state lookup
newcomer = refl

two_sockets-Unique : Unique two_sockets.socket_states
unfolding lookup
two_sockets-Unique = (refl, (refl, tt))

accept-Accepted_example : Accepted 3 ann two_sockets (accept 3 ann two_sockets)
accept-Accepted_example = accept-Accepted 3 ann two_sockets newcomer two_sockets-Unique

sessions_revoked-Revokes_example :
    Revokes
      (λ t state. revoked_by "ann" none none state)
      two_sockets
      (sessions_revoked "ann" none none two_sockets)
sessions_revoked-Revokes_example =
    sessions_revoked-Revokes "ann" none none two_sockets two_sockets-Unique

abbrev roadmap : Project
roadmap = record { id = "p"; created_by = some "ann"; is_public = false }

abbrev tables : Tables
tables = record {
  projects = ("p", roadmap) ∷ [];
  project_members = λ project. ("bob", "viewer") ∷ [];
  tasks = [];
  app_users = "ann" ∷ "bob" ∷ [];
}

one_project :
    (id : String) (project : Project) → lookup id tables.projects ≡ some project → project.id ≡ id
unfolding lookup
one_project id project h = ground (arith, eq_iff "p" id)

tables-Ok : TablesOk tables
unfolding lookup
tables-Ok = record { keyed = one_project; members_unique = λ id. (refl, tt) }

-- Only Bob shares a project with anyone.
abbrev is_bob : String → Bool
is_bob user = string_eq.beq user "bob"

abbrev bob_shares : String → String → Bool
bob_shares changed = is_bob

abbrev bob_among : String → List String → List String
bob_among changed users = filter is_bob users

abbrev all_open : ℕ → Bool
all_open socket = true

abbrev for_editors : BusEntry
for_editors = record {
  type = other_event;
  project_id = some "p";
  recipient_user_ids = none;
  broadcast = false;
  editors_only = true;
}

-- Ann's socket gets an event for editors; Bob's, of a viewer, does not.
for_editors_sent : deliver all_open bob_among tables for_editors two_sockets ≡ 1 ∷ []
unfolding deliver deliver_project_scoped candidates_of with_state distinct_user_ids is_named
    allow_members unresolved_rows send_to project_sockets get_socket_state created_by_user is_editor
    normalize_project_role lookup filter add contains
for_editors_sent = refl

deliver-receives_example :
    contains (deliver all_open bob_among tables for_editors two_sockets) 1
    ≡ receives all_open bob_among bob_shares tables for_editors two_sockets 1
deliver-receives_example =
    deliver-receives all_open bob_among bob_shares
      (λ changed user users. contains-filter is_bob users user) tables for_editors two_sockets 1
      tables-Ok Reached-Consistent_example
