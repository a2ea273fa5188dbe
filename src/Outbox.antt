-- ===== src/Outbox.antt =====
-- web/src/lib/outbox-ops.ts and outbox.svelte.ts: the queue of changes that wait for the server.
-- A time is a number of milliseconds. `newId` is a counter, since its ids never repeat. The writes
-- of the durable copy, the timers and the texts of an issue are not modelled; a request is its path
-- and its body.
use Prim.Native.String.{String}
use critical_path_api.Prelude.{
  ℕ, zero, suc, ◌+◌, ◌-◌, Bool, true, false, not, ◌&&◌, ◌||◌, List, [], ◌∷◌, ◌++◌, Option, none,
  some, map, foldl, if◌then◌else◌, ltb, leb, ◌==◌, length, take, drop, filter, find, contains,
  nat_eq, string_eq, Map, lookup, insert, delete,
}
pub mod Queue
pub mod Hydrate
pub mod Replay
pub mod Ids
pub mod Stored
pub mod Kept
pub mod Order
pub mod Bounds
pub mod Issues
pub mod Accounts
pub mod Rounds
pub mod Drain
pub mod Versions
mod Tests

abbrev pub max_queued_ops : ℕ
max_queued_ops = 500

abbrev pub max_queue_age_ms : ℕ
max_queue_age_ms = 604800000

abbrev pub max_server_error_attempts : ℕ
max_server_error_attempts = 3

-- A value of a body; what is no text, null or undefined is kept by its serialization. A field can be
-- there and undefined: it is left out of what is sent, and counts in a merge.
pub data Json : Type 0 where
  text : String → Json
  null : Json
  other : String → Json
  undefined : Json

abbrev pub Body : Type 0
Body = Map String Json

pub record Request : Type 0 where
  pub path : String
  pub body : Body

pub data OpSemantics : Type 0 where
  create : OpSemantics
  move : OpSemantics
  content_edit : OpSemantics
  plain : OpSemantics

pub record TaskVersion : Type 0 where
  pub title : String
  pub description : Json

pub record ConflictContext : Type 0 where
  pub task_id : String
  pub mine : TaskVersion
  pub base : TaskVersion

-- Where a row was put, and the list that it is ranked against.
pub data MoveIntent : Type 0 where
  task_move : String → Option String → Option String → MoveIntent
  column_move : Option String → Option String → MoveIntent
  checklist_move : String → Option String → Option String → MoveIntent

pub record QueuedOp : Type 0 where
  pub id : ℕ
  pub seq : ℕ
  pub project_id : String
  pub entity_id : String
  pub semantics : OpSemantics
  pub label : String
  pub request : Request
  pub move_intent : Option MoveIntent
  pub conflict : Option ConflictContext
  pub queued_at : ℕ
  pub attempts : ℕ

pub data IssueReason : Type 0 where
  conflict_raised : IssueReason
  gone : IssueReason
  forbidden : IssueReason
  rejected : IssueReason
  server : IssueReason
  expired : IssueReason
  approximate_placement : IssueReason

pub record OutboxIssue : Type 0 where
  pub id : ℕ
  pub label : String
  pub reason : IssueReason
  pub project_id : String
  pub entity_id : String
  pub task_id : Option String
  pub queued_at : ℕ
  pub at : ℕ
  pub request : Request

pub record SubmitInput : Type 0 where
  pub project_id : String
  pub entity_id : String
  pub label : String
  pub request : Request
  pub semantics : Option OpSemantics
  pub move_intent : Option MoveIntent
  pub conflict : Option ConflictContext

pub record OutboxStore : Type 0 where
  pub ops : List QueuedOp
  pub inflight : Option QueuedOp
  pub issues : List OutboxIssue
  pub drafts : Map String ConflictContext
  pub draining : Bool
  pub seq : ℕ
  pub hydrated : Bool
  pub generation : ℕ
  pub next_id : ℕ

unfoldable pub is_content_edit : OpSemantics → Bool
is_content_edit content_edit = true
is_content_edit create = false
is_content_edit move = false
is_content_edit plain = false

unfoldable pub is_move : OpSemantics → Bool
is_move move = true
is_move create = false
is_move content_edit = false
is_move plain = false

unfoldable pub is_create : OpSemantics → Bool
is_create create = true
is_create move = false
is_create content_edit = false
is_create plain = false

unfoldable pub semantics_of : Option OpSemantics → OpSemantics
semantics_of none = plain
semantics_of (some s) = s

unfoldable pub pending_of : Option QueuedOp → List QueuedOp → List QueuedOp
pending_of none ops = ops
pending_of (some op) ops = op ∷ ops

unfoldable pub pending : OutboxStore → List QueuedOp
pending s = pending_of s.inflight s.ops

unfoldable pub build : ℕ → SubmitInput → OutboxStore → QueuedOp × OutboxStore
build now input s = (
  record {
    id = s.next_id;
    seq = suc s.seq;
    project_id = input.project_id;
    entity_id = input.entity_id;
    semantics = semantics_of input.semantics;
    label = input.label;
    request = input.request;
    move_intent = input.move_intent;
    conflict = input.conflict;
    queued_at = now;
    attempts = 0;
  },
  record s { seq = suc s.seq; next_id = suc s.next_id },
)
