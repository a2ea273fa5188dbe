-- ===== src/Realtime/Handshake.antt =====
-- How many sockets one user keeps, and which: the ceiling that transport.ts puts on a handshake.
use Prim.Native.String.{String}
use text.Mathlib.TextEquality.{eq_iff}
use critical_path_api.Prelude.{
  ℕ, zero, suc, ◌-◌, ◌+◌, ◌≤◌, ◌≡◌, ◌≢◌, refl, ap, ◌∙◌, inl, inr, Bool, true, false, List, [], ◌∷◌,
  ◌++◌, none, some, foldl, arith, nat_eq, string_eq, leb, length, take, drop, filter, contains,
  Distinct, Map, lookup, insert, lookup-insert_self, Unique, insert-Unique, remove, length-append,
  Bool-cases,
}
use critical_path_api.Realtime.{
  SocketState, Credential, Realtime, register_socket, get_socket_state, remove_socket,
  authed_socket_entries, sockets_for_user,
}
use critical_path_api.Realtime.Transport.{
  max_sockets_per_user, close_sockets, evict_excess_user_sockets, accept,
}
use critical_path_api.Realtime.Evict.{
  chosen, chosen-delete, contains-chosen, chosen-Distinct, lookup-close_sockets, remove-absent,
}

remove-head : (x : ℕ) (xs : List ℕ) → contains xs x ≡ false → remove x (x ∷ xs) ≡ xs
unfolding remove filter
remove-head x xs h = ground (arith, remove-absent x xs h)

chosen-close_sockets :
    (test : ℕ × SocketState → Bool) (ss : List ℕ) (r : Realtime)
    → chosen test (close_sockets ss r).socket_states
      ≡ foldl (λ xs s. remove s xs) (chosen test r.socket_states) ss
unfolding close_sockets remove_socket
chosen-close_sockets test [] r = refl
chosen-close_sockets test (s ∷ ss) r =
    chosen-close_sockets test ss (remove_socket s r)
    ∙ ap (λ xs. foldl (λ xs s. remove s xs) xs ss) (chosen-delete test s r.socket_states)

remove-take :
    (n : ℕ) (xs : List ℕ) → Distinct xs → foldl (λ xs s. remove s xs) xs (take n xs) ≡ drop n xs
remove-take zero xs d = refl
remove-take (suc n) [] d = refl
remove-take (suc n) (x ∷ xs) d =
    ap (λ ys. foldl (λ xs s. remove s xs) ys (take n xs)) (remove-head x xs d.0)
    ∙ remove-take n xs d.1

abbrev of_user : String → ℕ × SocketState → Bool
of_user user entry = string_eq.beq entry.1.user_id user

sockets_for_user-chosen :
    (user : String) (r : Realtime) → sockets_for_user user r ≡ chosen (of_user user) r.socket_states
unfolding sockets_for_user authed_socket_entries chosen
sockets_for_user-chosen user r = refl

take-zero : (n : ℕ) (xs : List ℕ) → n ≡ 0 → take n xs ≡ []
take-zero zero xs h = refl
take-zero (suc n) xs h = ground arith

-- The guard makes no difference to a subtraction that stops at 0.
evict_excess_user_sockets-close :
    (user : String) (r : Realtime)
    → evict_excess_user_sockets user r
      ≡ close_sockets
          (take (length (sockets_for_user user r) - max_sockets_per_user) (sockets_for_user user r))
          r
unfolding evict_excess_user_sockets close_sockets
evict_excess_user_sockets-close user r =
    elim (Bool-cases (leb (length (sockets_for_user user r)) max_sockets_per_user)) [
      | inl few ↦ ground (
        arith,
        take-zero (length (sockets_for_user user r) - max_sockets_per_user)
            (sockets_for_user user r),
      )
      | inr many ↦ rw (evict_excess_user_sockets, many) refl
    ]

-- An eviction leaves a user the sockets that connected last, the first ones over 20 being
-- removed, where no socket is registered twice.
pub evict_excess_user_sockets-drop :
    (user : String) (r : Realtime)
    → Unique r.socket_states
    → sockets_for_user user (evict_excess_user_sockets user r)
      ≡ drop (length (sockets_for_user user r) - max_sockets_per_user) (sockets_for_user user r)
unfolding chosen sockets_for_user authed_socket_entries
evict_excess_user_sockets-drop user r u =
    let n = length (sockets_for_user user r) - max_sockets_per_user in
    rw
      (
        evict_excess_user_sockets-close user r,
        sockets_for_user-chosen user (close_sockets (take n (sockets_for_user user r)) r),
        chosen-close_sockets (of_user user) (take n (sockets_for_user user r)) r,
        sockets_for_user-chosen user r,
      )
      (remove-take n _ (chosen-Distinct (of_user user) r.socket_states u))

length-drop : (n : ℕ) (xs : List ℕ) → length (drop n xs) ≡ length xs - n
length-drop zero xs = omega arith
length-drop (suc n) [] = omega arith
length-drop (suc n) (x ∷ xs) = omega (arith, length-drop n xs)

chosen-insert_new :
    (test : ℕ × SocketState → Bool) (s : ℕ) (state : SocketState) (states : Map ℕ SocketState)
    → lookup s states ≡ none
    → test (s, state) ≡ true
    → chosen test (insert s state states) ≡ chosen test states ++ s ∷ []
unfolding chosen filter insert lookup
chosen-insert_new test s state [] h e = ground arith
chosen-insert_new test s state ((j, other) ∷ states) h e =
    ground (arith, chosen-insert_new test s state states)

take-append_new :
    (n : ℕ) (xs : List ℕ) (s : ℕ)
    → n ≤ length xs
    → contains xs s ≡ false
    → contains (take n (xs ++ s ∷ [])) s ≡ false
unfolding contains
take-append_new zero xs s le h = refl
take-append_new (suc n) [] s le h = ground arith
take-append_new (suc n) (x ∷ xs) s le h = ground (arith, take-append_new n xs s)

register_socket-sockets :
    (s : ℕ) (c : Credential) (r : Realtime)
    → get_socket_state s r ≡ none
    → sockets_for_user c.user_id (register_socket s c r) ≡ sockets_for_user c.user_id r ++ s ∷ []
unfolding register_socket get_socket_state sockets_for_user authed_socket_entries chosen
register_socket-sockets s c r new =
    chosen-insert_new (of_user c.user_id) s _ r.socket_states new
      (ground (arith, eq_iff c.user_id c.user_id))

not_listed :
    (s : ℕ) (user : String) (r : Realtime)
    → Unique r.socket_states
    → get_socket_state s r ≡ none
    → contains (sockets_for_user user r) s ≡ false
unfolding get_socket_state
not_listed s user r u new =
    rw (sockets_for_user-chosen user r, contains-chosen (of_user user) s r.socket_states u, new)
      refl

-- What a handshake leaves: the newcomer has a state, and it and the last 19 at most of those that
-- its user had before it are the user's sockets.
pub record Accepted (s : ℕ) (c : Credential) (r r' : Realtime) : Type 0 where
  pub kept : get_socket_state s r' ≢ none
  pub sockets :
      sockets_for_user c.user_id r'
      ≡ drop
          (length (sockets_for_user c.user_id r) + 1 - max_sockets_per_user)
          (sockets_for_user c.user_id r ++ s ∷ [])
  pub few : length (sockets_for_user c.user_id r') ≤ max_sockets_per_user

accept-sockets :
    (s : ℕ) (c : Credential) (r : Realtime)
    → get_socket_state s r ≡ none
    → Unique r.socket_states
    → sockets_for_user c.user_id (accept s c r)
      ≡ drop
          (length (sockets_for_user c.user_id r) + 1 - max_sockets_per_user)
          (sockets_for_user c.user_id r ++ s ∷ [])
unfolding accept register_socket
accept-sockets s c r new u =
    let old = sockets_for_user c.user_id r in
    evict_excess_user_sockets-drop c.user_id (register_socket s c r)
      (insert-Unique s _ r.socket_states u)
    ∙ rw (register_socket-sockets s c r new, length-append old (s ∷ [])) refl

newcomer-kept :
    (s : ℕ) (state : SocketState) (ss : List ℕ) (r : Realtime)
    → lookup s r.socket_states ≡ some state
    → contains ss s ≡ false
    → get_socket_state s (close_sockets ss r) ≢ none
unfolding get_socket_state
newcomer-kept s state ss r e out = ground (arith, lookup-close_sockets ss s r)

accept-kept :
    (s : ℕ) (c : Credential) (r : Realtime)
    → get_socket_state s r ≡ none
    → Unique r.socket_states
    → get_socket_state s (accept s c r) ≢ none
unfolding accept register_socket
accept-kept s c r new u =
    let old = sockets_for_user c.user_id r in
    let r1 = register_socket s c r in
    rw (evict_excess_user_sockets-close c.user_id r1, register_socket-sockets s c r new)
      (newcomer-kept s _ _ r1 (lookup-insert_self s _ r.socket_states) (
        take-append_new _ old s (omega (arith, length-append old (s ∷ [])))
          (not_listed s c.user_id r u new)))

-- A handshake of a socket that has no state, where no socket is registered twice, leaves its user at
-- most 20 sockets, the last to connect, and never removes the newcomer.
pub accept-Accepted :
    (s : ℕ) (c : Credential) (r : Realtime)
    → get_socket_state s r ≡ none
    → Unique r.socket_states
    → Accepted s c r (accept s c r)
unfolding accept
accept-Accepted s c r new u =
    let old = sockets_for_user c.user_id r in
    record {
      kept = accept-kept s c r new u;
      sockets = accept-sockets s c r new u;
      few = omega (
        arith,
        ap length (accept-sockets s c r new u),
        length-drop (length old + 1 - max_sockets_per_user) (old ++ s ∷ []),
        length-append old (s ∷ []),
      );
    }
