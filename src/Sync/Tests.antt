-- ===== src/Sync/Tests.antt =====
-- The indicator with work that waits for a server that is there.
use critical_path_api.Prelude.{◌≡◌, true, false, not, ◌&&◌, ltb, ◌==◌, refl, some}
use critical_path_api.Sync.{SyncInputs, sync_state, waiting, is_queue_stale}
use critical_path_api.Sync.Shown.{says_offline, says_unsent, is_clean, sync_state-says}

abbrev inputs : SyncInputs
inputs = record {
  reachable = true;
  pending_count = 2;
  draining = false;
  socket_interrupted = true;
  socket_evicted = false;
  unresolved_issues = 1;
  stale_read = false;
}

shown : sync_state inputs ≡ waiting
unfolding sync_state
shown = refl

warned_of : is_queue_stale (some (some 1000)) 86401000 ≡ true
unfolding is_queue_stale
warned_of = refl

sync_state-says_example :
    (says_offline (sync_state inputs) ≡ not inputs.reachable)
    × (says_unsent (sync_state inputs) ≡ ltb 0 inputs.pending_count)
    × (is_clean (sync_state inputs) ≡ (
        inputs.pending_count == 0
        && inputs.reachable
        && inputs.unresolved_issues == 0
        && not inputs.stale_read
        && not inputs.socket_evicted
        && not inputs.socket_interrupted))
sync_state-says_example = sync_state-says inputs
