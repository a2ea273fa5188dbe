-- ===== src/Sync/Shown.antt =====
-- What the states of the indicator say is true, and nothing that matters is hidden.
use critical_path_api.Prelude.{◌≡◌, Bool, true, false, not, ◌&&◌, arith, ltb, ◌==◌}
use critical_path_api.Sync.{
  SyncState, clean, syncing, waiting, offline_pending, offline, stale, reconnecting, evicted,
  needs_attention, SyncInputs, sync_state,
}

-- The states whose message says that the client is offline, those whose message says that work waits,
-- and the one that shows nothing.
unfoldable pub says_offline : SyncState → Bool
says_offline clean = false
says_offline syncing = false
says_offline waiting = false
says_offline offline_pending = true
says_offline offline = true
says_offline stale = false
says_offline reconnecting = false
says_offline evicted = false
says_offline needs_attention = false

unfoldable pub says_unsent : SyncState → Bool
says_unsent clean = false
says_unsent syncing = true
says_unsent waiting = true
says_unsent offline_pending = true
says_unsent offline = false
says_unsent stale = false
says_unsent reconnecting = false
says_unsent evicted = false
says_unsent needs_attention = false

unfoldable pub is_clean : SyncState → Bool
is_clean clean = true
is_clean syncing = false
is_clean waiting = false
is_clean offline_pending = false
is_clean offline = false
is_clean stale = false
is_clean reconnecting = false
is_clean evicted = false
is_clean needs_attention = false

-- The indicator says that the client is offline just where the server is not reachable, and that work
-- waits just where some does; it shows nothing just where nothing waits, the server is reachable,
-- no issue is open, the last refresh landed, and the socket is up.
pub sync_state-says :
    (inputs : SyncInputs)
    → (says_offline (sync_state inputs) ≡ not inputs.reachable)
      × (says_unsent (sync_state inputs) ≡ ltb 0 inputs.pending_count)
      × (is_clean (sync_state inputs) ≡ (
          inputs.pending_count == 0
          && inputs.reachable
          && inputs.unresolved_issues == 0
          && not inputs.stale_read
          && not inputs.socket_evicted
          && not inputs.socket_interrupted))
unfolding sync_state says_offline says_unsent is_clean
sync_state-says inputs = (ground arith, ground arith, ground arith)
