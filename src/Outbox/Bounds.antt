-- ===== src/Outbox/Bounds.antt =====
-- How much work can wait in the outbox.
use critical_path_api.Prelude.{
  ℕ, zero, suc, ◌-◌, ◌≤◌, ◌≡◌, refl, inl, inr, Bool, true, not, ◌||◌, List, [], ◌∷◌, ◌++◌, Option,
  none, some, foldl, arith, ltb, ==_iff, length, filter, contains, nat_eq, if_case, Option-cases,
  length-filter-le, string_eq, length-map,
}
use critical_path_api.Outbox.{
  QueuedOp, expired, SubmitInput, OutboxStore, build, max_queued_ops, max_queue_age_ms, pending,
  pending_of,
}
use critical_path_api.Outbox.Queue.{
  op_ids, raise, forget, raise_expired, overdue, enforce_bounds, coalesce, enqueue,
}
use critical_path_api.Outbox.Ids.{Within, ids, ids-bump_in}
use critical_path_api.Outbox.Order.{adds_none, act-Within}
use critical_path_api.Outbox.Hydrate.{replaces, take_stored, hydrate}
use critical_path_api.Outbox.Stored.{ids-start_drain}
use critical_path_api.Outbox.Replay.{
  SendOutcome, ok, unreachable, http, submit, submitted, Action, submits, returns, starts, claims,
  answers, abandons, dismisses, dismisses_all, resets, starts_hydrate, hydrates, act, run_all,
}

length-op_ids : (ops : List QueuedOp) → length (op_ids ops) ≡ length ops
unfolding op_ids
length-op_ids ops = length-map (λ op. op.id) ops

-- What is over the bound is among the ids that are taken out.
filter-overdue :
    (over cutoff : ℕ) (doomed : List ℕ) (ops : List QueuedOp)
    → ((id : ℕ) → contains (op_ids (overdue over cutoff ops)) id ≡ true → contains doomed id ≡ true)
    → length (filter (λ op. not (contains doomed op.id)) ops) ≤ length ops - over
unfolding overdue op_ids filter contains
filter-overdue over cutoff doomed [] h = omega arith
filter-overdue (suc over) cutoff doomed (op ∷ ops) h = ground (
  arith,
  h op.id,
  filter-overdue over cutoff doomed ops (λ id c. h id (ground (arith, c))),
  ==_iff op.id op.id,
)
filter-overdue zero cutoff doomed (op ∷ ops) h =
    omega (arith, length-filter-le (λ op. not (contains doomed op.id)) (op ∷ ops))

ops-expired :
    (now : ℕ) (doomed : List QueuedOp) (s : OutboxStore)
    → (foldl (raise_expired now) s doomed).ops ≡ s.ops
unfolding raise_expired raise
ops-expired now [] s = refl
ops-expired now (op ∷ doomed) s = ops-expired now doomed (raise now expired none op.request op s)

length-enforce_bounds :
    (now : ℕ) (s : OutboxStore) → length (enforce_bounds now s).ops ≤ max_queued_ops
unfolding enforce_bounds forget
length-enforce_bounds now s =
    let over : ℕ = length s.ops - max_queued_ops in
    let doomed : List QueuedOp = overdue over (now - max_queue_age_ms) s.ops in
    rw (ops-expired now doomed s) (
      omega (arith, filter-overdue over (now - max_queue_age_ms) (op_ids doomed) s.ops (λ id h. h)))

length-pending :
    (held : Option QueuedOp) (ops : List QueuedOp)
    → length ops ≤ 500
    → length (op_ids (pending_of held ops)) ≤ 501
unfolding pending_of
length-pending none ops h = omega (arith, length-op_ids ops)
length-pending (some op) ops h = omega (arith, length-op_ids (op ∷ ops))

unfoldable pub Bounded : OutboxStore → Type 0
Bounded s = length (ids s) ≤ 501

Bounded-enforce_bounds : (now : ℕ) (s : OutboxStore) → length (ids (enforce_bounds now s)) ≤ 501
unfolding ids pending
Bounded-enforce_bounds now s =
    length-pending (enforce_bounds now s).inflight (enforce_bounds now s).ops
      (length-enforce_bounds now s)

Bounded-enqueue :
    (now : ℕ) (op : QueuedOp) (s : OutboxStore) → Bounded s → Bounded (enqueue now op s)
unfolding Bounded enqueue ids pending
Bounded-enqueue now op s h = elim (Option-cases (coalesce op s.ops)) [
  | inl e ↦
      let t : OutboxStore = record s { ops = s.ops ++ op ∷ [] } in
      rw (enqueue, e)
        (length-pending (enforce_bounds now t).inflight (enforce_bounds now t).ops
          (length-enforce_bounds now t))
  | inr (merged, e) ↦ rw (enqueue, e, ids-bump_in merged s.inflight s.ops) h
]

Within-length : (xs ys : List ℕ) → Within xs ys → length xs ≤ length ys
unfolding Within
Within-length xs ys (keep, h) = rw (h) (length-filter-le keep ys)

Bounded-submit :
    (now : ℕ) (reachable : Bool) (input : SubmitInput) (s : OutboxStore)
    → Bounded s
    → Bounded (submit now reachable input s).1
unfolding submit build Bounded ids pending
Bounded-submit now reachable input s h =
    let (op, built) = build now input s in
    if_case (λ (r : Option QueuedOp × OutboxStore). Bounded r.1)
      (not reachable || ltb 0 (length (pending s)) || s.draining) _ _
      (λ b. Bounded-enqueue now op built h) (λ b. h)

Bounded-submitted :
    (now : ℕ) (outcome : SendOutcome) (op : QueuedOp) (s : OutboxStore)
    → Bounded s
    → Bounded (submitted now outcome op s)
unfolding submitted
Bounded-submitted now (ok row) op s h = h
Bounded-submitted now unreachable op s h = Bounded-enqueue now op s h
Bounded-submitted now (http status) op s h = h

Bounded-Within : (s' s : OutboxStore) → Within (ids s') (ids s) → Bounded s → Bounded s'
unfolding Bounded
Bounded-Within s' s w h = omega (arith, h, Within-length (ids s') (ids s) w)

Bounded-hydrate :
    (now generation : ℕ) (stored : List QueuedOp) (s : OutboxStore)
    → Bounded s
    → Bounded (hydrate now generation stored s)
unfolding hydrate Bounded
Bounded-hydrate now generation stored s h =
    let t : OutboxStore = enforce_bounds now (take_stored stored s) in
    if_case (λ (u : OutboxStore). length (ids u) ≤ 501) (replaces generation stored s) _ _
      (λ b. rw (ids-start_drain t) (Bounded-enforce_bounds now (take_stored stored s))) (λ b. h)

act-Bounded : (action : Action) (s : OutboxStore) → Bounded s → Bounded (act action s)
unfolding act adds_none
act-Bounded (submits now reachable input) s h = Bounded-submit now reachable input s h
act-Bounded (returns now outcome op) s h = Bounded-submitted now outcome op s h
act-Bounded starts s h = Bounded-Within (act starts s) s (act-Within starts s refl) h
act-Bounded claims s h = Bounded-Within (act claims s) s (act-Within claims s refl) h
act-Bounded (answers reply) s h =
    Bounded-Within (act (answers reply) s) s (act-Within (answers reply) s refl) h
act-Bounded (abandons claimed) s h =
    Bounded-Within (act (abandons claimed) s) s (act-Within (abandons claimed) s refl) h
act-Bounded (dismisses id) s h =
    Bounded-Within (act (dismisses id) s) s (act-Within (dismisses id) s refl) h
act-Bounded dismisses_all s h =
    Bounded-Within (act dismisses_all s) s (act-Within dismisses_all s refl) h
act-Bounded resets s h = Bounded-Within (act resets s) s (act-Within resets s refl) h
act-Bounded (starts_hydrate has_user) s h =
    Bounded-Within (act (starts_hydrate has_user) s) s (act-Within (starts_hydrate has_user) s refl)
      h
act-Bounded (hydrates now generation stored) s h = Bounded-hydrate now generation stored s h

-- However submits, answers, sign-outs and reads of the stored queue interleave, at most 501 ops
-- wait where no more did at the start.
pub run_all-Bounded :
    (actions : List Action) (s : OutboxStore) → Bounded s → Bounded (run_all actions s)
unfolding run_all
run_all-Bounded [] s h = h
run_all-Bounded (action ∷ actions) s h =
    run_all-Bounded actions (act action s) (act-Bounded action s h)
