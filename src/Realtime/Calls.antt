-- ===== src/Realtime/Calls.antt =====
-- What each call of realtime/state.ts changes: who is in which room, and who each socket speaks for.
use Prim.Native.String.{String}
use critical_path_api.Prelude.{
  ℕ, ◌≡◌, refl, inl, inr, Bool, true, false, not, ◌&&◌, ◌||◌, none, some, arith, nat_eq, string_eq,
  ◌==◌, ltb, length, lookup, Option-cases, Option, List, Map, insert, lookup-insert, lookup-delete,
  Bool-cases, subst, ap, ◌∙◌, add, remove, [], ==_iff, if◌then◌else◌,
}
use critical_path_api.Realtime.{
  SocketState, CredentialKind, remove_socket, Realtime, max_subscriptions_per_socket,
  register_socket, get_socket_state, subscribe_to_project, unsubscribe_from_project,
}
use critical_path_api.Realtime.Rooms.{same, members-join_room, members-leave_room}
use critical_path_api.Realtime.Registry.{subscriptions, in_room, Consistent, subscriptions-some}
use critical_path_api.Realtime.Keeps.{remove_socket-rooms, subscribed, subscribe_cases}
use critical_path_api.Realtime.Steps.{Call, register, subscribe, unsubscribe, close, apply}

pub authenticated : ℕ → Realtime → Bool
authenticated s r = elim (get_socket_state s r) [ none ↦ false | some _ ↦ true ]

-- A subscription is granted to an authenticated socket that has the project or is below the limit.
pub granted : ℕ → String → Realtime → Bool
granted s p r =
    authenticated s r
    && (in_room r p s
        || ltb (length (subscriptions r.socket_states s)) max_subscriptions_per_socket)

-- Who is in which room after a call, given who was before.
pub occupied : Call → Realtime → String → ℕ → Bool
occupied (register s c) r q t = in_room r q t
occupied (subscribe s p) r q t = (granted s p r && (same p q && s == t)) || in_room r q t
occupied (unsubscribe s p) r q t = not (same p q && s == t) && in_room r q t
occupied (close s) r q t = not (s == t) && in_room r q t

-- A subscription is granted to a socket that is authenticated and that has the project or fewer
-- than 1000 subscriptions, and to no other, in any state where the rooms and the subscription sets
-- agree.
pub subscribe_to_project-granted :
    (s : ℕ) (p : String) (r : Realtime)
    → Consistent r
    → (subscribe_to_project s p r).0 ≡ granted s p r
unfolding subscribe_to_project granted authenticated get_socket_state
subscribe_to_project-granted s p r k = elim (Option-cases (lookup s r.socket_states)) [
  | inl e ↦ rw (e, subscribe_to_project, granted, authenticated, get_socket_state) refl
  | inr (state, e) ↦
      rw (e, subscribe_to_project, granted, authenticated, get_socket_state)
        (ground (arith, k.rooms_agree p s, subscriptions-some s state r.socket_states e))
]

subscribe-rooms :
    (s t : ℕ) (p q : String) (r : Realtime)
    → in_room (subscribe_to_project s p r).1 q t
      ≡ (((subscribe_to_project s p r).0 && (same p q && s == t)) || in_room r q t)
unfolding in_room subscribed
subscribe-rooms s t p q r = elim (subscribe_cases s p r) [
  | inl e ↦ rw (e) refl
  | inr (state, _, _, e) ↦ rw (e) (ground (arith, members-join_room s t p q r.project_rooms))
]

rooms-apply :
    (c : Call) (r : Realtime) (q : String) (t : ℕ)
    → Consistent r
    → in_room (apply c r) q t ≡ occupied c r q t
unfolding apply occupied in_room register_socket unsubscribe_from_project
rooms-apply (register s c) r q t k = refl
rooms-apply (subscribe s p) r q t k =
    ground (arith, subscribe-rooms s t p q r, subscribe_to_project-granted s p r k)
rooms-apply (unsubscribe s p) r q t k = members-leave_room s t p q r.project_rooms
rooms-apply (close s) r q t k = remove_socket-rooms s t q r k

-- Who a socket speaks for: its user and the credential that it authenticated with.
pub owner_of : Option SocketState → Option (String × CredentialKind × String)
owner_of none = none
owner_of (some state) = some (state.user_id, state.credential_kind, state.credential_id)

abbrev pub owner : ℕ → Realtime → Option (String × CredentialKind × String)
owner t r = owner_of (lookup t r.socket_states)

-- Who a socket speaks for after a call, given who it did before.
pub owned : Call → Realtime → ℕ → Option (String × CredentialKind × String)
owned (register s c) r t = if s == t then some (c.user_id, c.kind, c.id) else owner t r
owned (subscribe s p) r t = owner t r
owned (unsubscribe s p) r t = owner t r
owned (close s) r t = if s == t then none else owner t r

-- To change the subscriptions of a socket leaves it the user and the credential.
owner-subscribed :
    (s t : ℕ) (state : SocketState) (ids : List String) (states : Map ℕ SocketState)
    → lookup s states ≡ some state
    → owner_of (lookup t (insert s (record state { project_ids = ids }) states))
      ≡ owner_of (lookup t states)
unfolding owner_of
owner-subscribed s t state ids states h = elim (Bool-cases (s == t)) [
  | inl b ↦
      rw (lookup-insert s t (record state { project_ids = ids }) states, b)
        (subst
          (λ u.
            some (state.user_id, state.credential_kind, state.credential_id)
            ≡ owner_of (lookup u states))
          ((==_iff s t).0 b) (rw (h, owner_of) refl))
  | inr b ↦ rw (lookup-insert s t (record state { project_ids = ids }) states, b) refl
]

owner-unsubscribe :
    (s t : ℕ) (p : String) (r : Realtime) → owner t (unsubscribe_from_project s p r) ≡ owner t r
unfolding unsubscribe_from_project
owner-unsubscribe s t p r = elim (Option-cases (lookup s r.socket_states)) [
  | inl e ↦ rw (unsubscribe_from_project, e) refl
  | inr (state, e) ↦
      rw (unsubscribe_from_project, e)
        (owner-subscribed s t state (remove p state.project_ids) r.socket_states e)
]

owner-subscribe :
    (s t : ℕ) (p : String) (r : Realtime) → owner t (subscribe_to_project s p r).1 ≡ owner t r
unfolding subscribed
owner-subscribe s t p r = elim (subscribe_cases s p r) [
  | inl e ↦ rw (e) refl
  | inr (state, h, _, e) ↦
      rw (e) (owner-subscribed s t state (add p state.project_ids) r.socket_states h)
]

owner-apply : (c : Call) (r : Realtime) (t : ℕ) → owner t (apply c r) ≡ owned c r t
unfolding apply owned owner_of register_socket remove_socket
owner-apply (register s c) r t =
    ap owner_of (
      lookup-insert s t
        (record {
          user_id = c.user_id;
          credential_kind = c.kind;
          credential_id = c.id;
          project_ids = [];
        })
        r.socket_states)
    ∙ elim (Bool-cases (s == t)) [ inl b ↦ rw (b) refl | inr b ↦ rw (b) refl ]
owner-apply (subscribe s p) r t = owner-subscribe s t p r
owner-apply (unsubscribe s p) r t = owner-unsubscribe s t p r
owner-apply (close s) r t =
    ap owner_of (lookup-delete s t r.socket_states)
    ∙ elim (Bool-cases (s == t)) [ inl b ↦ rw (b) refl | inr b ↦ rw (b) refl ]

-- Where the rooms and the subscription sets agree, a subscribe frame that is granted puts the
-- socket in that room and changes no other membership, an unsubscribe frame takes the socket out
-- of that room alone, a removed socket leaves every room and no other socket does, and to
-- register a socket changes no room; a socket that is registered speaks for the user and the
-- credential given, a removed one for nobody, and no call changes for whom any other socket
-- speaks, nor does a subscribe or an unsubscribe frame for its own.
pub in_room-apply :
    (c : Call) (r : Realtime) (q : String) (t : ℕ)
    → Consistent r
    → (in_room (apply c r) q t ≡ occupied c r q t) × (owner t (apply c r) ≡ owned c r t)
in_room-apply c r q t k = (rooms-apply c r q t k, owner-apply c r t)
