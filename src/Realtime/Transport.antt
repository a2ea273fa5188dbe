-- ===== src/Realtime/Transport.antt =====
-- api/src/services/realtime/transport.ts: what a handshake, a revocation and the ceiling on the
-- sockets of one user do to the registry. The close frames themselves are not part of the state.
use Prim.Native.String.{String}
use critical_path_api.Prelude.{
  ℕ, ◌-◌, Bool, false, List, Option, none, some, foldl, nat_eq, leb, if◌then◌else◌, length, take,
  filter,
}
use critical_path_api.Realtime.{
  CredentialKind, session, personal_access_token, Credential, Realtime, register_socket,
  get_socket_state, remove_socket, sockets_for_user, sockets_for_credential, same_kind,
}

abbrev pub max_sockets_per_user : ℕ
max_sockets_per_user = 20

-- `closeSockets`
unfoldable pub close_sockets : List ℕ → Realtime → Realtime
close_sockets sockets r = foldl (λ r socket. remove_socket socket r) r sockets

-- `getSocketState(socket)?.credentialKind === 'session'`
unfoldable pub has_session : Realtime → ℕ → Bool
has_session r socket = elim (get_socket_state socket r) [
  | none ↦ false
  | some state ↦ same_kind state.credential_kind session
]

unfoldable pub close_session_sockets_for_user : String → Realtime → Realtime
close_session_sockets_for_user user r =
    close_sockets (filter (has_session r) (sockets_for_user user r)) r

unfoldable pub close_sockets_for_credential : CredentialKind → String → Realtime → Realtime
close_sockets_for_credential kind id r = close_sockets (sockets_for_credential kind id r) r

unfoldable pub evict_excess_user_sockets : String → Realtime → Realtime
evict_excess_user_sockets user r =
    let sockets = sockets_for_user user r in
    if leb (length sockets) max_sockets_per_user
    then r
    else close_sockets (take (length sockets - max_sockets_per_user) sockets) r

-- The handshake from the credential on: the socket is open, and it has no state yet.
unfoldable pub accept : ℕ → Credential → Realtime → Realtime
accept socket credential r =
    evict_excess_user_sockets credential.user_id (register_socket socket credential r)

-- The `sessions_revoked` branch of `handleBusEntry`.
unfoldable pub sessions_revoked : String → Option String → Option String → Realtime → Realtime
sessions_revoked user token session_id r = elim token [
  | some id ↦ close_sockets_for_credential personal_access_token id r
  | none ↦ elim session_id [
    | some id ↦ close_sockets_for_credential session id r
    | none ↦ close_session_sockets_for_user user r
  ]
]
