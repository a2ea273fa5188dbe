-- ===== src/Realtime/Steps.antt =====
-- The registry of realtime/state.ts as a state machine: what transport.ts does with it, that it
-- keeps the rooms and the subscription sets in agreement.
use Prim.Native.String.{String}
use critical_path_api.Prelude.{ℕ, ◌≡◌, sym, subst, inl, inr, none, nat_eq, string_eq}
use critical_path_api.Realtime.{
  Credential, Realtime, register_socket, get_socket_state, subscribe_to_project,
  unsubscribe_from_project, remove_socket, reset_realtime_state,
}
use critical_path_api.Realtime.Registry.{Consistent}
use critical_path_api.Realtime.Keeps.{
  register_socket-Consistent, subscribe_cases, subscribed-Consistent,
  unsubscribe_from_project-Consistent, remove_socket-Consistent, reset-Consistent,
}

-- What transport.ts calls: a socket authenticates, sends a subscribe or an unsubscribe frame, or is
-- closed, evicted or revoked.
pub data Call : Type 0 where
  register : ℕ → Credential → Call
  subscribe unsubscribe : ℕ → String → Call
  close : ℕ → Call

unfoldable pub apply : Call → Realtime → Realtime
apply (register s c) r = register_socket s c r
apply (subscribe s p) r = (subscribe_to_project s p r).1
apply (unsubscribe s p) r = unsubscribe_from_project s p r
apply (close s) r = remove_socket s r

-- transport.ts registers no socket that has a state.
unfoldable pub Allowed : Call → Realtime → Type 0
Allowed (register s c) r = get_socket_state s r ≡ none
Allowed (subscribe s p) r = Unit
Allowed (unsubscribe s p) r = Unit
Allowed (close s) r = Unit

-- The states that calls lead to from the start of the process.
pub data Reached : Realtime → Type 0 where
  started : Reached reset_realtime_state
  called : (c : Call) (r : Realtime) → Allowed c r → Reached r → Reached (apply c r)

subscribe-Consistent :
    (s : ℕ) (p : String) (r : Realtime) → Consistent r → Consistent (subscribe_to_project s p r).1
subscribe-Consistent s p r k = elim (subscribe_cases s p r) [
  | inl e ↦ subst (λ x. Consistent x.1) (sym e) k
  | inr (state, e, fits, e') ↦
      subst (λ x. Consistent x.1) (sym e') (subscribed-Consistent s p state r e fits k)
]

pub apply-Consistent :
    (c : Call) (r : Realtime) → Allowed c r → Consistent r → Consistent (apply c r)
unfolding apply Allowed
apply-Consistent (register s c) r a k = register_socket-Consistent s c r a k
apply-Consistent (subscribe s p) r a k = subscribe-Consistent s p r k
apply-Consistent (unsubscribe s p) r a k = unsubscribe_from_project-Consistent s p r k
apply-Consistent (close s) r a k = remove_socket-Consistent s r k

-- In every state that calls lead to from the start, where no socket is registered while it has a
-- state, a socket is in the room of exactly the projects in its subscription set, no room is
-- empty, no socket is registered twice, no set has a member twice, and no socket has more than
-- 1000 subscriptions.
pub Reached-Consistent : (r : Realtime) → Reached r → Consistent r
Reached-Consistent _ started = reset-Consistent
Reached-Consistent _ (called c r a h) = apply-Consistent c r a (Reached-Consistent r h)
