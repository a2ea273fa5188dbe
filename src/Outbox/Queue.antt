-- ===== src/Outbox/Queue.antt =====
-- web/src/lib/outbox.svelte.ts: what the outbox does to its queue.
use Prim.Native.String.{String}
use critical_path_api.Prelude.{
  ℕ, zero, suc, ◌-◌, Bool, true, false, not, ◌&&◌, List, [], ◌∷◌, ◌++◌, Option, none, some, map,
  foldl, if◌then◌else◌, ltb, ◌==◌, length, filter, find, contains, nat_eq, string_eq, lookup,
  insert,
}
use critical_path_api.Outbox.{
  max_queued_ops, max_queue_age_ms, Json, text, null, other, undefined, Body, Request, TaskVersion,
  ConflictContext, QueuedOp, IssueReason, expired, OutboxStore, is_content_edit,
}

-- `{ ...older, ...newer }`
unfoldable pub spread : Body → Body → Body
spread older newer = foldl (λ body field. insert field.0 field.1 body) older newer

-- `asRecord(body)[key]`
unfoldable pub field : String → Body → Json
field key body = elim (lookup key body) [ none ↦ undefined | some value ↦ value ]

unfoldable pub title_of : Option Json → String → String
title_of none base = base
title_of (some (text title)) base = title
title_of (some null) base = base
title_of (some (other value)) base = base
title_of (some undefined) base = base

unfoldable pub description_of : Option Json → Json → Json
description_of none base = base
description_of (some undefined) base = base
description_of (some null) base = null
description_of (some (text description)) base = text description
description_of (some (other description)) base = other description

-- `mergeVersion`, on the patch that `#coalesce` reads from a body.
unfoldable pub merge_version : TaskVersion → Body → TaskVersion
merge_version base body = record {
  title = title_of (lookup "title" body) base.title;
  description = description_of (lookup "description" body) base.description;
}

unfoldable pub merge : QueuedOp → ConflictContext → QueuedOp → QueuedOp
merge existing held op =
    let body : Body =
      insert "expected_updated_at" (field "expected_updated_at" existing.request.body)
        (spread existing.request.body op.request.body) in
    record existing {
      label = op.label;
      request = record { path = existing.request.path; body = body };
      conflict = some (record {
        task_id = held.task_id;
        mine = merge_version held.base body;
        base = held.base;
      });
    }

unfoldable pub edits : String → QueuedOp → Bool
edits entity queued = is_content_edit queued.semantics && string_eq.beq queued.entity_id entity

unfoldable pub has_conflict : QueuedOp → Bool
has_conflict op = elim op.conflict [ none ↦ false | some held ↦ true ]

unfoldable pub merge_held : QueuedOp → QueuedOp → Option ConflictContext → Option QueuedOp
merge_held op existing none = none
merge_held op existing (some held) = some (merge existing held op)

unfoldable pub merge_into : QueuedOp → Option QueuedOp → Option QueuedOp
merge_into op none = none
merge_into op (some existing) = merge_held op existing existing.conflict

unfoldable pub coalesce : QueuedOp → List QueuedOp → Option QueuedOp
coalesce op ops =
    if is_content_edit op.semantics && has_conflict op
    then merge_into op (find (edits op.entity_id) ops)
    else none

unfoldable pub raise :
    ℕ → IssueReason → Option String → Request → QueuedOp → OutboxStore → OutboxStore
raise now reason task_id request op s = record s {
  issues =
      s.issues
      ++ (record {
        id = s.next_id;
        label = op.label;
        reason = reason;
        project_id = op.project_id;
        entity_id = op.entity_id;
        task_id = task_id;
        queued_at = op.queued_at;
        at = now;
        request = request;
      })
        ∷ [];
  next_id = suc s.next_id;
}

unfoldable pub op_ids : List QueuedOp → List ℕ
op_ids ops = map (λ op. op.id) ops

unfoldable pub clear_claim : List ℕ → Option QueuedOp → Option QueuedOp
clear_claim ids none = none
clear_claim ids (some op) = if contains ids op.id then none else some op

unfoldable pub forget : List QueuedOp → OutboxStore → OutboxStore
forget doomed s = record s {
  ops = filter (λ op. not (contains (op_ids doomed) op.id)) s.ops;
  inflight = clear_claim (op_ids doomed) s.inflight;
}

-- The first `over` of the queue, and those of the rest that were queued before `cutoff`.
unfoldable pub overdue : ℕ → ℕ → List QueuedOp → List QueuedOp
overdue over cutoff [] = []
overdue (suc over) cutoff (op ∷ ops) = op ∷ overdue over cutoff ops
overdue zero cutoff (op ∷ ops) =
    let rest = overdue zero cutoff ops in if ltb op.queued_at cutoff then op ∷ rest else rest

unfoldable pub raise_expired : ℕ → OutboxStore → QueuedOp → OutboxStore
raise_expired now s op = raise now expired none op.request op s

unfoldable pub enforce_bounds : ℕ → OutboxStore → OutboxStore
enforce_bounds now s =
    let doomed = overdue (length s.ops - max_queued_ops) (now - max_queue_age_ms) s.ops in
    forget doomed (foldl (raise_expired now) s doomed)

-- `this.#ops.map((queued) => (queued.id === merged.id ? merged : queued))`
unfoldable pub replace : QueuedOp → List QueuedOp → List QueuedOp
replace merged ops = map (λ queued. if queued.id == merged.id then merged else queued) ops

unfoldable pub enqueue : ℕ → QueuedOp → OutboxStore → OutboxStore
enqueue now op s = elim (coalesce op s.ops) [
  | none ↦ enforce_bounds now (record s { ops = s.ops ++ op ∷ [] })
  | some merged ↦ record s { ops = replace merged s.ops }
]

unfoldable pub claim_first : List QueuedOp → OutboxStore → OutboxStore
claim_first [] s = s
claim_first (op ∷ ops) s = record s { ops = ops; inflight = some op }

unfoldable pub claim : OutboxStore → OutboxStore
claim s = claim_first s.ops s

unfoldable pub release_held : ℕ → Option QueuedOp → OutboxStore → OutboxStore
release_held claimed none s = s
release_held claimed (some op) s =
    if not (op.id == claimed) then s else record s { ops = op ∷ s.ops; inflight = none }

unfoldable pub release : ℕ → OutboxStore → OutboxStore
release claimed s = release_held claimed s.inflight s

unfoldable pub holds : ℕ → Option QueuedOp → Bool
holds id none = false
holds id (some op) = op.id == id

unfoldable pub bump_attempts : QueuedOp → OutboxStore → OutboxStore
bump_attempts op s =
    let updated : QueuedOp = record op { attempts = suc op.attempts } in
    if holds op.id s.inflight
    then record s { inflight = some updated }
    else record s { ops = replace updated s.ops }

unfoldable pub has_field : String → Body → Bool
has_field key body = elim (lookup key body) [ none ↦ false | some value ↦ true ]

-- The step of the loop of `#advancePreconditions`.
unfoldable pub advance : String → String → QueuedOp → QueuedOp
advance entity updated_at queued =
    if edits entity queued && has_field "expected_updated_at" queued.request.body
    then record queued {
      request = record {
        path = queued.request.path;
        body = insert "expected_updated_at" (text updated_at) queued.request.body;
      };
    }
    else queued

unfoldable pub advance_all : String → Option Json → List QueuedOp → List QueuedOp
advance_all entity none ops = ops
advance_all entity (some null) ops = ops
advance_all entity (some (other value)) ops = ops
advance_all entity (some undefined) ops = ops
advance_all entity (some (text updated_at)) ops = map (advance entity updated_at) ops

unfoldable pub advance_preconditions : QueuedOp → Body → OutboxStore → OutboxStore
advance_preconditions op row s =
    if not (is_content_edit op.semantics)
    then s
    else record s { ops = advance_all op.entity_id (lookup "updated_at" row) s.ops }

unfoldable pub dismiss_issue : ℕ → OutboxStore → OutboxStore
dismiss_issue id s = record s { issues = filter (λ issue. not (issue.id == id)) s.issues }

unfoldable pub dismiss_all_issues : OutboxStore → OutboxStore
dismiss_all_issues s = record s { issues = [] }

unfoldable pub reset : OutboxStore → OutboxStore
reset s = record s {
  ops = [];
  inflight = none;
  issues = [];
  seq = 0;
  hydrated = false;
  draining = false;
  generation = suc s.generation;
}
