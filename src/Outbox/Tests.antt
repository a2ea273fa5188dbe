-- ===== src/Outbox/Tests.antt =====
-- The outbox at inputs: submits that are sent at once, an outage, and the replay after it.
use critical_path_api.Prelude.{
  not, ◌==◌, ℕ, suc, ◌≤◌, ◌≡◌, refl, true, false, ◌||◌, List, [], ◌∷◌, ◌++◌, none, some, map, arith,
  length, filter, find, contains, nat_eq, string_eq, Unique, lookup, if◌then◌else◌,
}
use critical_path_api.Outbox.{
  text, Request, content_edit, plain, TaskVersion, null, ConflictContext, QueuedOp, SubmitInput,
  OutboxStore, is_content_edit, pending, pending_of, build, semantics_of,
}
use critical_path_api.Outbox.Queue.{
  coalesce, enqueue, edits, has_conflict, field, overdue, enforce_bounds, forget, clear_claim,
  op_ids,
}
use critical_path_api.Outbox.Ids.{Within, ids}
use critical_path_api.Outbox.Order.{work_before, act-Added}
use critical_path_api.Outbox.Hydrate.{hydrate, replaces, take_stored, unclaimed, start_drain}
use Prim.Native.String.{String}
use critical_path_api.Outbox.Bounds.{Bounded, run_all-Bounded}
use critical_path_api.Outbox.Issues.{ever_lets_go}
use critical_path_api.Outbox.Accounts.{run_all-accounts}
use critical_path_api.Outbox.Rounds.{stopping}
use critical_path_api.Outbox.Drain.{drain-empties}
use critical_path_api.Outbox.Versions.{either_value, enqueue-merge}
use critical_path_api.Outbox.Replay.{
  ok, unreachable, Reply, submit, submitted, Action, submits, starts, claims, answers, resets,
  hydrates, act, run_all, drain,
}

abbrev empty : OutboxStore
empty = record {
  ops = [];
  inflight = none;
  issues = [];
  drafts = [];
  draining = false;
  seq = 0;
  hydrated = true;
  generation = 0;
  next_id = 0;
}

abbrev rename : Request
rename = record {
  path = "/api/tasks/a";
  body = ("title", text "later") ∷ ("expected_updated_at", text "t2") ∷ [];
}

abbrev input : SubmitInput
input = record {
  project_id = "p";
  entity_id = "a";
  label = "rename";
  request = rename;
  semantics = none;
  move_intent = none;
  conflict = none;
}

abbrev op_of : ℕ → QueuedOp
op_of n = record {
  id = n;
  seq = suc n;
  project_id = "p";
  entity_id = "a";
  semantics = plain;
  label = "rename";
  request = rename;
  move_intent = none;
  conflict = none;
  queued_at = 1000;
  attempts = 0;
}

-- Two changes are sent at once while the server is there.
both_sent : (submit 1000 true input (submit 1000 true input empty).1).0 ≡ some (op_of 1)
unfolding submit build pending pending_of semantics_of
both_sent = refl

-- Neither reaches it, the later one first to know: the queue has them in that order.
overtaken :
    map
      (λ (op : QueuedOp). op.seq)
      (submitted 1002 unreachable (op_of 0) (submitted 1001 unreachable (op_of 1) empty)).ops
    ≡ 2 ∷ 1 ∷ []
unfolding submitted enqueue coalesce is_content_edit enforce_bounds overdue forget clear_claim
    op_ids contains filter
overtaken = refl

abbrev waiting : OutboxStore
waiting = record empty { ops = op_of 0 ∷ op_of 1 ∷ []; seq = 2; next_id = 2 }

abbrev reply : Reply
reply = record { now = 2000; exact = true; request = rename; outcome = ok [] }

abbrev actions : List Action
actions =
    starts
    ∷ claims
    ∷ submits 1500 true input
    ∷ hydrates 1600 0 waiting.ops
    ∷ answers reply
    ∷ resets
    ∷ []

act-Added_example :
    (added : List ℕ) × (length added ≤ 1)
    × Within
        (ids (act (submits 1500 true input) waiting))
        (work_before (submits 1500 true input) waiting ++ added)
act-Added_example = act-Added (submits 1500 true input) waiting

-- The stored queue has the op on the wire and one more, which is what waits after the read.
read_back :
    (hydrate 2000 0 (op_of 0 ∷ op_of 5 ∷ []) (record empty { inflight = some (op_of 0) })).ops
    ≡ op_of 5 ∷ []
unfolding hydrate replaces take_stored unclaimed start_drain enforce_bounds overdue forget
    clear_claim op_ids contains filter
read_back = refl

waiting-Bounded : Bounded waiting
unfolding Bounded ids pending pending_of op_ids
waiting-Bounded = omega arith

run_all-Bounded_example : Bounded (run_all actions waiting)
run_all-Bounded_example = run_all-Bounded actions waiting waiting-Bounded

first_waits : contains (ids waiting) 0 ≡ true
unfolding contains ids pending pending_of op_ids
first_waits = refl

run_all-accounts_example :
    (contains (ids (run_all actions waiting)) 0 || ever_lets_go actions waiting 0) ≡ true
run_all-accounts_example = run_all-accounts actions waiting 0 first_waits

never_stops : (i : ℕ) → stopping reply.outcome ≡ false
unfolding stopping
never_stops i = refl

drain-empties_example :
    ((drain 6 (λ i. reply) waiting).0 ≡ true) × ((drain 6 (λ i. reply) waiting).1.ops ≡ [])
drain-empties_example = drain-empties 6 (λ i. reply) waiting refl (omega arith) never_stops

abbrev base : TaskVersion
base = record { title = "first"; description = null }

abbrev held : ConflictContext
held = record { task_id = "a"; mine = base; base = base }

abbrev edit : ℕ → Request → QueuedOp
edit n request = record (op_of n) {
  semantics = content_edit;
  request = request;
  conflict = some held;
}

abbrev earlier : QueuedOp
earlier = edit 0 (record {
  path = "/api/tasks/a";
  body = ("title", text "mine") ∷ ("expected_updated_at", text "t1") ∷ [];
})

abbrev edited : OutboxStore
edited = record empty { ops = earlier ∷ []; seq = 2; next_id = 2 }

found : find (edits "a") edited.ops ≡ some earlier
unfolding find edits is_content_edit
found = refl

guarded : has_conflict (edit 1 rename) ≡ true
unfolding has_conflict
guarded = refl

is_edit : is_content_edit (edit 1 rename).semantics ≡ true
unfolding is_content_edit
is_edit = refl

fields_once : Unique rename.body
unfolding lookup
fields_once = (refl, (refl, tt))

enqueue-merge_example :
    let queued = (enqueue 1500 (edit 1 rename) edited).ops in
    (merged : QueuedOp) × (find (edits "a") queued ≡ some merged)
    × (merged.id ≡ earlier.id)
    × (op_ids queued ≡ op_ids edited.ops)
    × (filter (λ q. not (q.id == earlier.id)) queued
        ≡ filter (λ q. not (q.id == earlier.id)) edited.ops)
    × ((key : String)
        → lookup key merged.request.body ≡ (
            if string_eq.beq "expected_updated_at" key
            then some (field "expected_updated_at" earlier.request.body)
            else either_value (lookup key rename.body) (lookup key earlier.request.body)))
enqueue-merge_example =
    enqueue-merge 1500 (edit 1 rename) earlier held edited is_edit guarded found refl fields_once
