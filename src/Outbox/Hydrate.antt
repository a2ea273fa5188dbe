-- ===== src/Outbox/Hydrate.antt =====
-- web/src/lib/outbox.svelte.ts: `hydrate`, which puts the queue that was stored in place of the one in
-- memory. The stored queue is an argument, as `withMoveKind` passes it on: with a kind for every move.
use critical_path_api.Prelude.{
  ℕ, max, Bool, true, not, ◌&&◌, ◌||◌, List, Option, none, some, foldl, if◌then◌else◌, ◌==◌, length,
  filter, nat_eq,
}
use critical_path_api.Outbox.{QueuedOp, OutboxStore}
use critical_path_api.Outbox.Queue.{enforce_bounds}

-- `drain`, to the start of its loop.
unfoldable pub start_drain : OutboxStore → OutboxStore
start_drain s = if length s.ops == 0 then s else record s { draining = true }

-- `hydrate` to its read, which a user who is signed in does once.
unfoldable pub start_hydrate : Bool → OutboxStore → OutboxStore
start_hydrate has_user s = if not has_user || s.hydrated then s else record s { hydrated = true }

-- What was read replaces the queue unless the account signed out in between, or nothing was stored.
unfoldable pub replaces : ℕ → List QueuedOp → OutboxStore → Bool
replaces generation stored s = generation == s.generation && not (length stored == 0)

-- `stored.filter((op) => op.id !== claimed)`
unfoldable pub unclaimed : Option QueuedOp → List QueuedOp → List QueuedOp
unclaimed none stored = stored
unclaimed (some op) stored = filter (λ queued. not (queued.id == op.id)) stored

unfoldable pub take_stored : List QueuedOp → OutboxStore → OutboxStore
take_stored stored s = record s {
  seq = foldl (λ seq op. max seq op.seq) s.seq stored;
  ops = unclaimed s.inflight stored;
}

-- `hydrate` from its read on: the time, the generation at the start of the read, and what was read.
unfoldable pub hydrate : ℕ → ℕ → List QueuedOp → OutboxStore → OutboxStore
hydrate now generation stored s =
    if replaces generation stored s
    then start_drain (enforce_bounds now (take_stored stored s))
    else s
