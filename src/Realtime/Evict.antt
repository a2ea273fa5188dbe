-- ===== src/Realtime/Evict.antt =====
-- Which sockets are left after a revocation.
use Prim.Native.String.{String}
use critical_path_api.Prelude.{
  ℕ, ◌≡◌, refl, inl, inr, Bool, false, ◌&&◌, List, [], ◌∷◌, Option, none, some, map, arith, nat_eq,
  string_eq, if◌then◌else◌, filter, contains, contains-filter, Distinct, Map, lookup, delete,
  lookup-delete, Unique, remove, Option-cases,
}
use critical_path_api.Realtime.{
  CredentialKind, session, personal_access_token, SocketState, Realtime, get_socket_state,
  remove_socket, authed_socket_entries, sockets_for_user, sockets_for_credential, same_kind,
}
use critical_path_api.Realtime.Transport.{
  close_sockets, has_session, close_session_sockets_for_user, close_sockets_for_credential,
  sessions_revoked,
}

-- The sockets whose entries pass a test, in the order of the map.
unfoldable pub chosen : (ℕ × SocketState → Bool) → Map ℕ SocketState → List ℕ
chosen test states = map (λ entry. entry.0) (filter test states)

pub chosen-delete :
    (test : ℕ × SocketState → Bool) (s : ℕ) (states : Map ℕ SocketState)
    → chosen test (delete s states) ≡ remove s (chosen test states)
unfolding chosen filter delete remove
chosen-delete test s [] = refl
chosen-delete test s (entry ∷ states) = ground (arith, chosen-delete test s states)

pub contains-chosen :
    (test : ℕ × SocketState → Bool) (t : ℕ) (states : Map ℕ SocketState)
    → Unique states
    → contains (chosen test states) t
      ≡ elim (lookup t states) [ none ↦ false | some state ↦ test (t, state) ]
unfolding chosen filter contains lookup
contains-chosen test t [] u = refl
contains-chosen test t ((j, state) ∷ states) u = ground (arith, contains-chosen test t states u.1)

pub chosen-Distinct :
    (test : ℕ × SocketState → Bool) (states : Map ℕ SocketState)
    → Unique states
    → Distinct (chosen test states)
unfolding chosen filter contains
chosen-Distinct test [] u = tt
chosen-Distinct test ((j, state) ∷ states) u =
    ground (arith, chosen-Distinct test states u.1, contains-chosen test j states u.1)

-- What closing sockets leaves of the registry.
pub lookup-close_sockets :
    (ss : List ℕ) (t : ℕ) (r : Realtime)
    → lookup t (close_sockets ss r).socket_states
      ≡ (if contains ss t then none else lookup t r.socket_states)
unfolding contains remove_socket close_sockets
lookup-close_sockets [] t r = refl
lookup-close_sockets (s ∷ ss) t r =
    ground (arith, lookup-close_sockets ss t (remove_socket s r), lookup-delete s t r.socket_states)

-- A socket's state is kept, unless it passes the test.
abbrev pub Revokes : (ℕ → SocketState → Bool) → Realtime → Realtime → Type 0
Revokes test r r' =
    (t : ℕ)
    → lookup t r'.socket_states ≡ elim (lookup t r.socket_states) [
      | none ↦ none
      | some state ↦ if test t state then none else some state
    ]

close-chosen :
    (test : ℕ × SocketState → Bool) (r : Realtime)
    → Unique r.socket_states
    → Revokes (λ t state. test (t, state)) r (close_sockets (chosen test r.socket_states) r)
close-chosen test r u t =
    rw
      (
        lookup-close_sockets (chosen test r.socket_states) t r,
        contains-chosen test t r.socket_states u,
      )
      (elim (Option-cases (lookup t r.socket_states)) [
        | inl e ↦ rw (e) refl
        | inr (state, e) ↦ rw (e) refl
      ])

-- To close the sockets of a credential ends exactly the sockets that authenticated with it, where
-- no socket is registered twice.
pub close_sockets_for_credential-Revokes :
    (kind : CredentialKind) (id : String) (r : Realtime)
    → Unique r.socket_states
    → Revokes
        (λ t state. same_kind state.credential_kind kind && string_eq.beq state.credential_id id)
        r
        (close_sockets_for_credential kind id r)
unfolding close_sockets_for_credential sockets_for_credential authed_socket_entries chosen
close_sockets_for_credential-Revokes kind id r u =
    close-chosen
      (λ entry. same_kind entry.1.credential_kind kind && string_eq.beq entry.1.credential_id id) r
      u

has_session-some :
    (t : ℕ) (state : SocketState) (r : Realtime)
    → lookup t r.socket_states ≡ some state
    → has_session r t ≡ same_kind state.credential_kind session
unfolding has_session get_socket_state
has_session-some t state r e = rw (e, has_session, get_socket_state) refl

-- To revoke a user's sessions ends exactly the sockets of that user that authenticated with a
-- session, where no socket is registered twice; those with a personal access token stay.
pub close_session_sockets_for_user-Revokes :
    (user : String) (r : Realtime)
    → Unique r.socket_states
    → Revokes
        (λ t state. string_eq.beq state.user_id user && same_kind state.credential_kind session)
        r
        (close_session_sockets_for_user user r)
unfolding close_session_sockets_for_user sockets_for_user authed_socket_entries chosen
close_session_sockets_for_user-Revokes user r u t =
    let test : ℕ × SocketState → Bool = λ entry. string_eq.beq entry.1.user_id user in
    rw
      (
        lookup-close_sockets (filter (has_session r) (chosen test r.socket_states)) t r,
        contains-filter (has_session r) (chosen test r.socket_states) t,
        contains-chosen test t r.socket_states u,
      )
      (elim (Option-cases (lookup t r.socket_states)) [
        | inl e ↦ rw (e) refl
        | inr (state, e) ↦ rw (e, has_session-some t state r e) refl
      ])

pub remove-absent : (s : ℕ) (xs : List ℕ) → contains xs s ≡ false → remove s xs ≡ xs
unfolding remove contains filter
remove-absent s [] h = refl
remove-absent s (x ∷ xs) h = ground (arith, remove-absent s xs)

-- Whom a `sessions_revoked` event is about: a token, one session, or every session of a user.
unfoldable pub revoked_by : String → Option String → Option String → SocketState → Bool
revoked_by user (some id) session_id state =
    same_kind state.credential_kind personal_access_token && string_eq.beq state.credential_id id
revoked_by user none (some id) state =
    same_kind state.credential_kind session && string_eq.beq state.credential_id id
revoked_by user none none state =
    string_eq.beq state.user_id user && same_kind state.credential_kind session

-- A revocation ends exactly the sockets that it is about, where no socket is registered twice: those
-- of the token if it names one, or else those of the session if it names one, or else those of
-- the user that authenticated with a session. Every other socket keeps its state.
pub sessions_revoked-Revokes :
    (user : String) (token session_id : Option String) (r : Realtime)
    → Unique r.socket_states
    → Revokes
        (λ t state. revoked_by user token session_id state)
        r
        (sessions_revoked user token session_id r)
unfolding sessions_revoked revoked_by
sessions_revoked-Revokes user (some id) session_id r u =
    close_sockets_for_credential-Revokes personal_access_token id r u
sessions_revoked-Revokes user none (some id) r u =
    close_sockets_for_credential-Revokes session id r u
sessions_revoked-Revokes user none none r u = close_session_sockets_for_user-Revokes user r u
