-- ===== src/Realtime/Registry.antt =====
-- The relation between the rooms and the subscription sets of realtime/state.ts.
use Prim.Native.String.{String}
use critical_path_api.Prelude.{
  ℕ, ◌≤◌, ◌≡◌, refl, Bool, List, [], none, some, arith, nat_eq, string_eq, ◌==◌, if◌then◌else◌,
  length, contains, Distinct, Map, lookup, insert, delete, lookup-insert, lookup-delete, Unique,
}
use critical_path_api.Realtime.{SocketState, Realtime, max_subscriptions_per_socket}
use critical_path_api.Realtime.Rooms.{members, RoomsOk}

-- The projects that a socket has subscribed to: none if it is not authenticated.
unfoldable pub subscriptions : Map ℕ SocketState → ℕ → List String
subscriptions states socket = elim (lookup socket states) [
  | none ↦ []
  | some state ↦ state.project_ids
]

-- Is the socket in the room of the project?
unfoldable pub in_room : Realtime → String → ℕ → Bool
in_room r project socket = contains (members r.project_rooms project) socket

-- What holds of the two maps at all times: a socket is in the room of exactly the projects that it
-- has subscribed to, no room is empty, no map has a key twice, no set has a member twice, and no
-- socket has more subscriptions than the limit.
pub record Consistent (r : Realtime) : Type 0 where
  pub rooms_agree :
      (p : String) (s : ℕ) → in_room r p s ≡ contains (subscriptions r.socket_states s) p
  pub rooms_ok : RoomsOk r.project_rooms
  pub sockets_unique : Unique r.socket_states
  pub subscriptions_distinct : (s : ℕ) → Distinct (subscriptions r.socket_states s)
  pub bounded : (s : ℕ) → length (subscriptions r.socket_states s) ≤ max_subscriptions_per_socket

pub subscriptions-insert :
    (s t : ℕ) (state : SocketState) (states : Map ℕ SocketState)
    → subscriptions (insert s state states) t
      ≡ (if s == t then state.project_ids else subscriptions states t)
unfolding subscriptions
subscriptions-insert s t state states =
    rw (lookup-insert s t state states, subscriptions) (ground arith)

pub subscriptions-delete :
    (s t : ℕ) (states : Map ℕ SocketState)
    → subscriptions (delete s states) t ≡ (if s == t then [] else subscriptions states t)
unfolding subscriptions
subscriptions-delete s t states = rw (lookup-delete s t states, subscriptions) (ground arith)

pub subscriptions-none :
    (s : ℕ) (states : Map ℕ SocketState) → lookup s states ≡ none → subscriptions states s ≡ []
unfolding subscriptions
subscriptions-none s states e = rw (e, subscriptions) refl

pub subscriptions-some :
    (s : ℕ) (state : SocketState) (states : Map ℕ SocketState)
    → lookup s states ≡ some state
    → subscriptions states s ≡ state.project_ids
unfolding subscriptions
subscriptions-some s state states e = rw (e, subscriptions) refl
