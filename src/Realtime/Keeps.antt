-- ===== src/Realtime/Keeps.antt =====
-- Every operation of realtime/state.ts keeps the rooms and the subscription sets in agreement.
use Prim.Native.String.{String}
use critical_path_api.Prelude.{
  ℕ, ◌<◌, ◌≡◌, refl, ◌⊎◌, inl, inr, true, false, not, ◌&&◌, [], none, some, arith, nat_eq,
  string_eq, ◌==◌, leb, if◌then◌else◌, length, filter, contains, lookup, insert, Unique,
  insert-Unique, delete-Unique, add, remove, contains-add, contains-remove, length-add,
  length-filter-le, add-Distinct, remove-Distinct, Bool-cases, Option-cases,
}
use critical_path_api.Realtime.{
  SocketState, Credential, Realtime, max_subscriptions_per_socket, register_socket,
  get_socket_state, join_room, subscribe_to_project, unsubscribe_from_project, remove_socket,
  reset_realtime_state,
}
use critical_path_api.Realtime.Rooms.{
  same, members, RoomsOk, members-join_room, members-leave_room, members-leave_rooms,
  join_room-RoomsOk, leave_room-RoomsOk, leave_rooms-RoomsOk,
}
use critical_path_api.Realtime.Registry.{
  subscriptions, in_room, Consistent, subscriptions-insert, subscriptions-delete,
  subscriptions-none, subscriptions-some,
}

-- A socket is registered only once: transport.ts does not look up a second credential.
pub register_socket-Consistent :
    (s : ℕ) (c : Credential) (r : Realtime)
    → get_socket_state s r ≡ none
    → Consistent r
    → Consistent (register_socket s c r)
unfolding register_socket get_socket_state in_room contains
register_socket-Consistent s c r new k =
    let state : SocketState = record {
      user_id = c.user_id;
      credential_kind = c.kind;
      credential_id = c.id;
      project_ids = [];
    } in
    record {
      rooms_agree = λ p t. ground (
        arith,
        subscriptions-insert s t state r.socket_states,
        k.rooms_agree p t,
        subscriptions-none s r.socket_states new,
      );
      rooms_ok = k.rooms_ok;
      sockets_unique = insert-Unique s state r.socket_states k.sockets_unique;
      subscriptions_distinct = λ t.
          ground
            (arith, subscriptions-insert s t state r.socket_states, k.subscriptions_distinct t);
      bounded = λ t. ground (arith, subscriptions-insert s t state r.socket_states, k.bounded t);
    }

-- A subscription is refused, and nothing changes; or the socket is authenticated and had the project
-- already or has room for one more, and both maps change.
unfoldable pub subscribed : ℕ → String → SocketState → Realtime → Realtime
subscribed socket project state r = record {
  socket_states =
      insert socket (record state { project_ids = add project state.project_ids }) r.socket_states;
  project_rooms = join_room socket project r.project_rooms;
}

pub subscribe_cases :
    (s : ℕ) (p : String) (r : Realtime)
    → (subscribe_to_project s p r ≡ (false, r))
      ⊎ ((state : SocketState) × (lookup s r.socket_states ≡ some state)
          × ((contains state.project_ids p ≡ true)
              ⊎ (length state.project_ids < max_subscriptions_per_socket))
          × (subscribe_to_project s p r ≡ (true, subscribed s p state r)))
unfolding subscribe_to_project subscribed
subscribe_cases s p r = elim (Option-cases (lookup s r.socket_states)) [
  | inl e ↦ inl (rw (e, subscribe_to_project) refl)
  | inr (state, e) ↦
      elim (Bool-cases (
        not (contains state.project_ids p)
        && leb max_subscriptions_per_socket (length state.project_ids))) [
          | inl full ↦ inl (rw (e, subscribe_to_project, full) refl)
          | inr free ↦ inr (state, e, ground arith, rw (e, subscribe_to_project, free) refl)
        ]
]

pub subscribed-Consistent :
    (s : ℕ) (p : String) (state : SocketState) (r : Realtime)
    → lookup s r.socket_states ≡ some state
    → (contains state.project_ids p ≡ true)
      ⊎ (length state.project_ids < max_subscriptions_per_socket)
    → Consistent r
    → Consistent (subscribed s p state r)
unfolding subscribed in_room
subscribed-Consistent s p state r e fits k =
    let state' : SocketState = record state { project_ids = add p state.project_ids } in
    let old = subscriptions-some s state r.socket_states e in
    record {
      rooms_agree = λ q t. ground (
        arith,
        subscriptions-insert s t state' r.socket_states,
        k.rooms_agree q t,
        old,
        members-join_room s t p q r.project_rooms,
        contains-add p q state.project_ids,
      );
      rooms_ok = join_room-RoomsOk s p r.project_rooms k.rooms_ok;
      sockets_unique = insert-Unique s state' r.socket_states k.sockets_unique;
      subscriptions_distinct = λ t. ground (
        arith,
        subscriptions-insert s t state' r.socket_states,
        old,
        k.subscriptions_distinct t,
        add-Distinct p state.project_ids,
      );
      bounded = λ t. ground (
        arith,
        subscriptions-insert s t state' r.socket_states,
        old,
        k.bounded t,
        length-add p state.project_ids,
      );
    }

unsubscribe-subscriptions :
    (s t : ℕ) (p : String) (r : Realtime)
    → subscriptions (unsubscribe_from_project s p r).socket_states t ≡ (
        if s == t
        then remove p (subscriptions r.socket_states t)
        else subscriptions r.socket_states t)
unfolding unsubscribe_from_project remove filter
unsubscribe-subscriptions s t p r = elim (Option-cases (lookup s r.socket_states)) [
  | inl e ↦
      rw (e, unsubscribe_from_project) (ground (arith, subscriptions-none s r.socket_states e))
  | inr (state, e) ↦
      rw (e, unsubscribe_from_project)
        (ground (
          arith,
          subscriptions-some s state r.socket_states e,
          subscriptions-insert s t (record state { project_ids = remove p state.project_ids })
              r.socket_states,
        ))
]

unsubscribe-Unique :
    (s : ℕ) (p : String) (r : Realtime)
    → Unique r.socket_states
    → Unique (unsubscribe_from_project s p r).socket_states
unfolding unsubscribe_from_project
unsubscribe-Unique s p r u = elim (Option-cases (lookup s r.socket_states)) [
  | inl e ↦ rw (e, unsubscribe_from_project) u
  | inr (state, e) ↦
      rw (e, unsubscribe_from_project)
        (insert-Unique s (record state { project_ids = remove p state.project_ids }) r.socket_states
          u)
]

pub unsubscribe_from_project-Consistent :
    (s : ℕ) (p : String) (r : Realtime) → Consistent r → Consistent (unsubscribe_from_project s p r)
unfolding in_room unsubscribe_from_project remove
unsubscribe_from_project-Consistent s p r k = record {
  rooms_agree = λ q t. ground (
    arith,
    unsubscribe-subscriptions s t p r,
    k.rooms_agree q t,
    members-leave_room s t p q r.project_rooms,
    contains-remove p q (subscriptions r.socket_states t),
  );
  rooms_ok = leave_room-RoomsOk s p r.project_rooms k.rooms_ok;
  sockets_unique = unsubscribe-Unique s p r k.sockets_unique;
  subscriptions_distinct = λ t. ground (
    arith,
    unsubscribe-subscriptions s t p r,
    k.subscriptions_distinct t,
    remove-Distinct p (subscriptions r.socket_states t),
  );
  bounded = λ t. ground (
    arith,
    unsubscribe-subscriptions s t p r,
    k.bounded t,
    length-filter-le (λ x. not (same p x)) (subscriptions r.socket_states t),
  );
}

-- Once a socket is removed, it is in no room.
pub remove_socket-rooms :
    (s t : ℕ) (q : String) (r : Realtime)
    → Consistent r
    → in_room (remove_socket s r) q t ≡ (not (s == t) && in_room r q t)
unfolding remove_socket in_room contains
remove_socket-rooms s t q r k = elim (Option-cases (lookup s r.socket_states)) [
  | inl e ↦
      rw (e, remove_socket)
        (ground (arith, k.rooms_agree q t, subscriptions-none s r.socket_states e))
  | inr (state, e) ↦
      rw (e, remove_socket)
        (ground (
          arith,
          k.rooms_agree q t,
          subscriptions-some s state r.socket_states e,
          members-leave_rooms s t state.project_ids q r.project_rooms,
        ))
]

remove_socket-RoomsOk :
    (s : ℕ) (r : Realtime) → RoomsOk r.project_rooms → RoomsOk (remove_socket s r).project_rooms
unfolding remove_socket
remove_socket-RoomsOk s r ok = elim (Option-cases (lookup s r.socket_states)) [
  | inl e ↦ rw (e, remove_socket) ok
  | inr (state, e) ↦
      rw (e, remove_socket) (leave_rooms-RoomsOk s state.project_ids r.project_rooms ok)
]

pub remove_socket-Consistent :
    (s : ℕ) (r : Realtime) → Consistent r → Consistent (remove_socket s r)
unfolding remove_socket contains
remove_socket-Consistent s r k = record {
  rooms_agree = λ q t. ground (
    arith,
    remove_socket-rooms s t q r k,
    k.rooms_agree q t,
    subscriptions-delete s t r.socket_states,
  );
  rooms_ok = remove_socket-RoomsOk s r k.rooms_ok;
  sockets_unique = delete-Unique s r.socket_states k.sockets_unique;
  subscriptions_distinct =
      λ t. ground (arith, subscriptions-delete s t r.socket_states, k.subscriptions_distinct t);
  bounded = λ t. ground (arith, subscriptions-delete s t r.socket_states, k.bounded t);
}

pub reset-Consistent : Consistent reset_realtime_state
unfolding in_room members subscriptions lookup contains
reset-Consistent = record {
  rooms_agree = λ p s. refl;
  rooms_ok = λ p room h. ground arith;
  sockets_unique = tt;
  subscriptions_distinct = λ s. tt;
  bounded = λ s. omega arith;
}
