-- ===== src/Outbox/Replay.antt =====
-- web/src/lib/outbox.svelte.ts: submits, the drain that replays the queue, and what can happen
-- between two of its waits, as actions on the store. The request that is sent and whether its placement
-- is exact are arguments of an answer.
use Prim.Native.String.{String}
use critical_path_api.Prelude.{
  ℕ, zero, suc, Bool, true, false, not, ◌&&◌, ◌||◌, List, [], ◌∷◌, Option, none, some,
  if◌then◌else◌, ltb, leb, ◌==◌, length, filter, string_eq, insert,
}
use critical_path_api.Outbox.{
  max_server_error_attempts, Body, Request, QueuedOp, IssueReason, conflict_raised, gone, forbidden,
  rejected, server, approximate_placement, SubmitInput, OutboxStore, is_content_edit, is_move,
  is_create, pending, build,
}
use critical_path_api.Outbox.Queue.{
  raise, forget, enqueue, claim, release, bump_attempts, has_conflict, advance_preconditions,
  dismiss_issue, dismiss_all_issues, reset,
}
use critical_path_api.Outbox.Hydrate.{start_drain, start_hydrate, hydrate}

pub data SendOutcome : Type 0 where
  ok : Body → SendOutcome
  unreachable : SendOutcome
  http : ℕ → SendOutcome

pub data Verdict : Type 0 where
  halt : Verdict
  retry : Verdict
  retry_fresh : Verdict
  next : Verdict

unfoldable pub is_already_applied : QueuedOp → ℕ → Bool
is_already_applied op status = is_create op.semantics && status == 409

unfoldable pub raise_conflict : ℕ → QueuedOp → OutboxStore → OutboxStore
raise_conflict now op s = elim op.conflict [
  | none ↦ s
  | some held ↦ forget (op ∷ []) (
      raise now conflict_raised (some held.task_id) op.request op
        (record s { drafts = insert held.task_id held s.drafts }))
]

unfoldable pub same_entity : String → QueuedOp → Bool
same_entity entity queued = string_eq.beq queued.entity_id entity

unfoldable pub fail_entity : ℕ → IssueReason → Request → QueuedOp → OutboxStore → OutboxStore
fail_entity now reason request op s =
    forget (filter (same_entity op.entity_id) (pending s)) (raise now reason none request op s)

unfoldable pub drop_op : ℕ → IssueReason → Request → QueuedOp → OutboxStore → OutboxStore
drop_op now reason request op s = forget (op ∷ []) (raise now reason none request op s)

unfoldable pub handle_http_failure :
    ℕ → ℕ → Request → QueuedOp → OutboxStore → Verdict × OutboxStore
handle_http_failure now status request op s =
    if status == 401
    then (halt, s)
    else (if status == 409 && is_content_edit op.semantics && has_conflict op
        then (next, raise_conflict now op s)
        else (if status == 409 && is_move op.semantics && op.attempts == 0
            then (retry_fresh, bump_attempts op s)
            else (if status == 404 || status == 403
                then (
                  next,
                  fail_entity now (if status == 404 then gone else forbidden) request op s,
                )
                else (if leb 500 status && ltb (suc op.attempts) max_server_error_attempts
                    then (retry, bump_attempts op s)
                    else (
                      next,
                      drop_op now (if leb 500 status then server else rejected) request op s,
                    )))))

unfoldable pub raise_adjusted : Bool → ℕ → QueuedOp → OutboxStore → OutboxStore
raise_adjusted exact now op s =
    if exact then s else raise now approximate_placement none op.request op s

-- What the drain does with the answer to the claimed op, to the end of the round, where `finally`
-- releases it; `true` leaves the loop.
unfoldable pub applied : ℕ → Bool → QueuedOp → OutboxStore → Bool × OutboxStore
applied now exact op s = (false, release op.id (forget (op ∷ []) (raise_adjusted exact now op s)))

unfoldable pub stops : Verdict → Bool
stops halt = true
stops retry = false
stops retry_fresh = false
stops next = false

unfoldable pub finish : QueuedOp → Verdict × OutboxStore → Bool × OutboxStore
finish op (verdict, s) = (stops verdict, release op.id s)

unfoldable pub settle :
    ℕ → Bool → Request → SendOutcome → QueuedOp → OutboxStore → Bool × OutboxStore
settle now exact request unreachable op s = (true, release op.id s)
settle now exact request (ok row) op s = (
  false,
  release op.id (forget (op ∷ []) (advance_preconditions op row (raise_adjusted exact now op s))),
)
settle now exact request (http status) op s =
    if is_already_applied op status
    then applied now exact op s
    else finish op (handle_http_failure now status request op s)

-- The reply to one request, with what was read to make it.
pub record Reply : Type 0 where
  pub now : ℕ
  pub exact : Bool
  pub request : Request
  pub outcome : SendOutcome

unfoldable pub settle_held : Reply → Option QueuedOp → OutboxStore → Bool × OutboxStore
settle_held reply none s = (false, s)
settle_held reply (some op) s = settle reply.now reply.exact reply.request reply.outcome op s

unfoldable pub settle_claimed : Reply → OutboxStore → Bool × OutboxStore
settle_claimed reply s = settle_held reply s.inflight s

-- A drain that begins, and one that ends.
unfoldable pub stop_drain : OutboxStore → OutboxStore
stop_drain s = record s { draining = false }

-- `submit` up to its wait: the op is queued, or it is to be sent at once and is answered.
unfoldable pub submit : ℕ → Bool → SubmitInput → OutboxStore → Option QueuedOp × OutboxStore
submit now reachable input s =
    let (op, built) = build now input s in
    if not reachable || ltb 0 (length (pending s)) || s.draining
    then (none, enqueue now op built)
    else (some op, built)

-- The rest of `submit`, for an op that was sent at once.
unfoldable pub submitted : ℕ → SendOutcome → QueuedOp → OutboxStore → OutboxStore
submitted now (ok row) op s = s
submitted now unreachable op s = enqueue now op s
submitted now (http status) op s = s

-- What can happen to the store. A drain claims only between two rounds; an answer to a request of a
-- generation that has gone only releases what it had claimed.
pub data Action : Type 0 where
  submits : ℕ → Bool → SubmitInput → Action
  returns : ℕ → SendOutcome → QueuedOp → Action
  starts : Action
  claims : Action
  answers : Reply → Action
  abandons : ℕ → Action
  dismisses : ℕ → Action
  dismisses_all : Action
  resets : Action
  starts_hydrate : Bool → Action
  hydrates : ℕ → ℕ → List QueuedOp → Action

unfoldable pub claim_unless : Option QueuedOp → Bool → OutboxStore → OutboxStore
claim_unless none true s = claim s
claim_unless none false s = s
claim_unless (some op) draining s = s

unfoldable pub claim_next : OutboxStore → OutboxStore
claim_next s = claim_unless s.inflight s.draining s

unfoldable pub leave_loop : Bool × OutboxStore → OutboxStore
leave_loop (left, s) = if left || length s.ops == 0 then stop_drain s else s

unfoldable pub act : Action → OutboxStore → OutboxStore
act (submits now reachable input) s = (submit now reachable input s).1
act (returns now outcome op) s = submitted now outcome op s
act starts s = start_drain s
act claims s = claim_next s
act (answers reply) s = leave_loop (settle_claimed reply s)
act (abandons claimed) s = release claimed s
act (dismisses id) s = dismiss_issue id s
act dismisses_all s = dismiss_all_issues s
act resets s = reset s
act (starts_hydrate has_user) s = start_hydrate has_user s
act (hydrates now generation stored) s = hydrate now generation stored s

unfoldable pub run_all : List Action → OutboxStore → OutboxStore
run_all [] s = s
run_all (action ∷ actions) s = run_all actions (act action s)

-- The loop of the drain, when nothing comes between its rounds: the store, and `false` where the fuel
-- runs out. `replies` are the replies to its requests.
unfoldable pub after_round :
    (OutboxStore → Bool × OutboxStore) → Bool × OutboxStore → Bool × OutboxStore
after_round go (left, s) = if left then (true, stop_drain s) else go s

unfoldable pub drain_ops :
    (OutboxStore → Bool × OutboxStore) → Reply → List QueuedOp → OutboxStore → Bool × OutboxStore
drain_ops go reply [] s = (true, stop_drain s)
drain_ops go reply (op ∷ ops) s = after_round go (settle_claimed reply (claim s))

unfoldable pub drain : ℕ → (ℕ → Reply) → OutboxStore → Bool × OutboxStore
drain zero replies s = (length s.ops == 0, stop_drain s)
drain (suc fuel) replies s = drain_ops (drain fuel replies) (replies fuel) s.ops s
