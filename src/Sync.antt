-- ===== src/Sync.antt =====
-- web/src/lib/sync-state.ts: the one state that the indicator shows, out of seven signals. A time is a
-- number of milliseconds, and a text that is no time is `none`.
use critical_path_api.Prelude.{
  ℕ, ◌-◌, Bool, true, false, not, Option, none, some, if◌then◌else◌, ltb, leb,
}
pub mod Shown
mod Tests

pub data SyncState : Type 0 where
  clean : SyncState
  syncing : SyncState
  waiting : SyncState
  offline_pending : SyncState
  offline : SyncState
  stale : SyncState
  reconnecting : SyncState
  evicted : SyncState
  needs_attention : SyncState

pub record SyncInputs : Type 0 where
  pub reachable : Bool
  pub pending_count : ℕ
  pub draining : Bool
  pub socket_interrupted : Bool
  pub socket_evicted : Bool
  pub unresolved_issues : ℕ
  pub stale_read : Bool

unfoldable pub sync_state : SyncInputs → SyncState
sync_state inputs =
    if ltb 0 inputs.pending_count
    then (if not inputs.reachable
        then offline_pending
        else (if inputs.draining then syncing else waiting))
    else (if not inputs.reachable
        then offline
        else (if ltb 0 inputs.unresolved_issues
            then needs_attention
            else (if inputs.stale_read
                then stale
                else (if inputs.socket_evicted
                    then evicted
                    else (if inputs.socket_interrupted then reconnecting else clean)))))

abbrev pub stale_queue_warning_ms : ℕ
stale_queue_warning_ms = 86400000

unfoldable pub is_queue_stale : Option (Option ℕ) → ℕ → Bool
is_queue_stale none now = false
is_queue_stale (some none) now = false
is_queue_stale (some (some queued_at)) now = leb stale_queue_warning_ms (now - queued_at)
