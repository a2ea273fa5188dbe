-- ===== src/Outbox/Drain.antt =====
-- A drain of the outbox ends, and empties the queue where the server answers.
use critical_path_api.Prelude.{
  ℕ, zero, suc, ◌*◌, ◌≤◌, ◌<◌, ◌≡◌, refl, sym, ap, subst, Bool, true, false, List, [], ◌∷◌, none,
  some, arith, ◌==◌, length, nat_eq, string_eq,
}
use critical_path_api.Outbox.{QueuedOp, OutboxStore}
use critical_path_api.Outbox.Queue.{claim_first, claim}
use critical_path_api.Outbox.Replay.{
  Reply, settle_held, settle_claimed, stop_drain, after_round, drain_ops, drain,
}
use critical_path_api.Outbox.Rounds.{
  chances, total, stopping, total-length, Progress, Progress-settle,
}

-- One round of the loop, from its claim.
Progress-round :
    (reply : Reply) (op : QueuedOp) (ops : List QueuedOp) (s : OutboxStore)
    → s.ops ≡ op ∷ ops
    → stopping reply.outcome ≡ false
    → Progress (total s.ops) (settle_claimed reply (claim s))
unfolding claim claim_first settle_claimed settle_held total
Progress-round reply op ops s h live =
    subst (λ xs. Progress (total xs) (settle_claimed reply (claim_first xs s))) (sym h)
      (Progress-settle reply.now reply.exact reply.request reply.outcome op
        (record s { ops = ops; inflight = some op }) refl live)

after_round-go :
    (go : OutboxStore → Bool × OutboxStore) (r : Bool × OutboxStore)
    → r.0 ≡ false
    → after_round go r ≡ go r.1
unfolding after_round
after_round-go go (left, s) h = rw (after_round, h) refl

-- The loop has ended, with nothing left to send.
Emptied : Bool × OutboxStore → Type 0
Emptied r = (r.0 ≡ true) × (r.1.ops ≡ [])

Emptied-drain_ops :
    (go : OutboxStore → Bool × OutboxStore) (reply : Reply) (ops : List QueuedOp) (s : OutboxStore)
    → s.ops ≡ ops
    → ((t : OutboxStore) → t.inflight ≡ none → total t.ops < total s.ops → Emptied (go t))
    → stopping reply.outcome ≡ false
    → Emptied (drain_ops go reply ops s)
unfolding Emptied drain_ops stop_drain Progress
Emptied-drain_ops go reply [] s h rest live = (refl, h)
Emptied-drain_ops go reply (op ∷ ops) s h rest live =
    let (on, cleared, less) = Progress-round reply op ops s h live in
    subst Emptied (sym (after_round-go go (settle_claimed reply (claim s)) on))
      (rest (settle_claimed reply (claim s)).1 cleared less)

total_zero : (ops : List QueuedOp) → total ops ≤ 0 → ops ≡ []
unfolding total chances
total_zero [] h = refl
total_zero (op ∷ ops) h = ground (arith, h)

Emptied-drain :
    (fuel : ℕ) (replies : ℕ → Reply) (s : OutboxStore)
    → s.inflight ≡ none
    → total s.ops ≤ fuel
    → ((i : ℕ) → stopping (replies i).outcome ≡ false)
    → Emptied (drain fuel replies s)
unfolding drain Emptied stop_drain
Emptied-drain zero replies s h n live =
    let empty : s.ops ≡ [] = total_zero s.ops n in (ap (λ ops. length ops == 0) empty, empty)
Emptied-drain (suc fuel) replies s h n live =
    Emptied-drain_ops (drain fuel replies) (replies fuel) s.ops s refl
      (λ t cleared less. Emptied-drain fuel replies t cleared (omega (arith, less, n)) live)
      (live fuel)

-- Where no answer stops it and nothing comes between, a drain that begins with nothing on the
-- wire and has fuel for three rounds for each op empties the queue.
pub drain-empties :
    (fuel : ℕ) (replies : ℕ → Reply) (s : OutboxStore)
    → s.inflight ≡ none
    → 3 * length s.ops ≤ fuel
    → ((i : ℕ) → stopping (replies i).outcome ≡ false)
    → ((drain fuel replies s).0 ≡ true) × ((drain fuel replies s).1.ops ≡ [])
unfolding Emptied
drain-empties fuel replies s h n live =
    Emptied-drain fuel replies s h (omega (arith, n, total-length s.ops)) live
