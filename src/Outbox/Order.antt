-- ===== src/Outbox/Order.antt =====
-- The outbox replays its work in the order in which it was queued.
use critical_path_api.Prelude.{
  ℕ, ◌≤◌, ◌≡◌, refl, sym, ap, ◌∙◌, subst, inl, inr, Bool, true, false, not, ◌||◌, List, [], ◌∷◌,
  ◌++◌, Option, none, some, foldl, arith, ltb, ◌==◌, length, filter, nat_eq, string_eq, if_case,
  Option-cases, Bool-cases, if◌then◌else◌,
}
use critical_path_api.Outbox.{
  QueuedOp, expired, SubmitInput, OutboxStore, pending, pending_of, build,
}
use critical_path_api.Outbox.Queue.{
  op_ids, raise, raise_expired, overdue, enforce_bounds, coalesce, enqueue, release, dismiss_issue,
  dismiss_all_issues, reset,
}
use critical_path_api.Outbox.Replay.{
  SendOutcome, ok, unreachable, http, settle_held, settle_claimed, submit, submitted, Action,
  submits, returns, starts, claims, answers, abandons, dismisses, dismisses_all, resets,
  starts_hydrate, hydrates, claim_next, act,
}
use critical_path_api.Outbox.Hydrate.{
  replaces, unclaimed, take_stored, hydrate, start_drain, start_hydrate,
}
use critical_path_api.Outbox.Stored.{ids-start_drain, ids-start_hydrate}
use critical_path_api.Outbox.Ids.{
  Within, Within-same, Within-trans, ids, forget-Within, op_ids-filter, filter-none, ids-release,
  ids-claim_next, ids-bump_in,
}
use critical_path_api.Outbox.Kept.{
  Kept, Kept-same, Kept-trans, ids-raise, Kept-settle_held, Kept-leave_loop,
}

-- Queueing an op adds it at the end, merges it, or adds it and takes others out.
Added : OutboxStore → OutboxStore → List ℕ → Type 0
Added s' s added = Within (ids s') (ids s ++ added)

pub pending-expired :
    (now : ℕ) (doomed : List QueuedOp) (s : OutboxStore)
    → ids (foldl (raise_expired now) s doomed) ≡ ids s
unfolding raise_expired
pending-expired now [] s = refl
pending-expired now (op ∷ doomed) s =
    pending-expired now doomed (raise now expired none op.request op s)
    ∙ ids-raise now expired none op.request op s

op_ids-push :
    (op : QueuedOp) (ops : List QueuedOp) → op_ids (ops ++ op ∷ []) ≡ op_ids ops ++ op.id ∷ []
unfolding op_ids
op_ids-push op [] = refl
op_ids-push op (x ∷ ops) = ap (λ ids. x.id ∷ ids) (op_ids-push op ops)

pub ids-push :
    (op : QueuedOp) (held : Option QueuedOp) (ops : List QueuedOp)
    → op_ids (pending_of held (ops ++ op ∷ [])) ≡ op_ids (pending_of held ops) ++ op.id ∷ []
unfolding pending_of op_ids
ids-push op none ops = op_ids-push op ops
ids-push op (some y) ops = ap (λ ids. y.id ∷ ids) (op_ids-push op ops)

no_more : (xs : List ℕ) → xs ++ [] ≡ xs
no_more [] = refl
no_more (x ∷ xs) = ap (λ ys. x ∷ ys) (no_more xs)

Within-enforce_bounds : (now : ℕ) (s : OutboxStore) → Within (ids (enforce_bounds now s)) (ids s)
unfolding enforce_bounds
Within-enforce_bounds now s =
    Within-trans _ _ _ (forget-Within (overdue _ _ s.ops) _)
      (Within-same _ _ (pending-expired now (overdue _ _ s.ops) s))

Added-enqueue :
    (now : ℕ) (op : QueuedOp) (s : OutboxStore)
    → (added : List ℕ) × (length added ≤ 1) × Added (enqueue now op s) s added
unfolding enqueue enforce_bounds Added ids pending
Added-enqueue now op s = elim (Option-cases (coalesce op s.ops)) [
  | inl h ↦ (
    op.id ∷ [],
    omega arith,
    rw (enqueue, h)
        (Within-trans _ _ _ (forget-Within (overdue _ _ (s.ops ++ op ∷ [])) _) (
          Within-same _ _ (
            pending-expired now (overdue _ _ (s.ops ++ op ∷ []))
              (record s { ops = s.ops ++ op ∷ [] })
            ∙ ids-push op s.inflight s.ops))),
  )
  | inr (merged, h) ↦ (
    [],
    omega arith,
    rw (enqueue, h)
        (Within-same _ _ (
          ids-bump_in merged s.inflight s.ops
          ∙ sym (no_more (op_ids (pending_of s.inflight s.ops))))),
  )
]

Kept-Added :
    (s' s : OutboxStore) → Kept s' s → (added : List ℕ) × (length added ≤ 1) × Added s' s added
unfolding Kept Added
Kept-Added s' s k = ([], omega arith, subst (Within (ids s')) (sym (no_more (ids s))) k)

Added-submit :
    (now : ℕ) (reachable : Bool) (input : SubmitInput) (s : OutboxStore)
    → (added : List ℕ) × (length added ≤ 1) × Added (submit now reachable input s).1 s added
unfolding submit build Added ids pending
Added-submit now reachable input s =
    let (op, built) = build now input s in
    if_case
      (λ (r : Option QueuedOp × OutboxStore).
        (added : List ℕ) × (length added ≤ 1) × Added r.1 s added)
      (not reachable || ltb 0 (length (pending s)) || s.draining) _ _
      (λ b. Added-enqueue now op built) (λ b. Kept-Added built s (Kept-same built s refl))

Added-submitted :
    (now : ℕ) (outcome : SendOutcome) (op : QueuedOp) (s : OutboxStore)
    → (added : List ℕ) × (length added ≤ 1) × Added (submitted now outcome op s) s added
unfolding submitted
Added-submitted now (ok row) op s = Kept-Added s s (Kept-same s s refl)
Added-submitted now unreachable op s = Added-enqueue now op s
Added-submitted now (http status) op s = Kept-Added s s (Kept-same s s refl)

Kept-reset : (s : OutboxStore) → Kept (reset s) s
unfolding reset Kept Within ids pending pending_of op_ids
Kept-reset s = (λ id. false, sym (filter-none (ids s)))

-- Does an action leave the queue without new work?
unfoldable pub adds_none : Action → Bool
adds_none (submits now reachable input) = false
adds_none (returns now outcome op) = false
adds_none starts = true
adds_none claims = true
adds_none (answers reply) = true
adds_none (abandons claimed) = true
adds_none (dismisses id) = true
adds_none dismisses_all = true
adds_none resets = true
adds_none (starts_hydrate has_user) = true
adds_none (hydrates now generation stored) = false

pub act-Within :
    (action : Action) (s : OutboxStore)
    → adds_none action ≡ true
    → Within (ids (act action s)) (ids s)
unfolding adds_none act Kept settle_claimed settle_held dismiss_issue dismiss_all_issues start_drain
    ids pending
act-Within (submits now reachable input) s h = ground arith
act-Within (returns now outcome op) s h = ground arith
act-Within starts s h =
    if_case (λ t. Kept t s) (length s.ops == 0) _ _ (λ b. Kept-same s s refl)
      (λ b. Kept-same (record s { draining = true }) s refl)
act-Within claims s h = Kept-same (claim_next s) s (ids-claim_next s)
act-Within (answers reply) s h =
    Kept-trans (act (answers reply) s) (settle_claimed reply s).1 s
      (Kept-leave_loop (settle_claimed reply s)) (Kept-settle_held reply s.inflight s)
act-Within (abandons claimed) s h = Kept-same (release claimed s) s (ids-release claimed s)
act-Within (dismisses id) s h = Kept-same (dismiss_issue id s) s refl
act-Within dismisses_all s h = Kept-same (dismiss_all_issues s) s refl
act-Within resets s h = Kept-reset s
act-Within (starts_hydrate has_user) s h =
    Kept-same (start_hydrate has_user s) s (ids-start_hydrate has_user s)
act-Within (hydrates now generation stored) s h = ground arith

-- The op on the wire, and behind it the ids of the stored queue but its own.
unfoldable pub read_back : Option QueuedOp → List ℕ → List ℕ
read_back none stored = stored
read_back (some op) stored = op.id ∷ filter (λ id. not (id == op.id)) stored

ids-unclaimed :
    (held : Option QueuedOp) (stored : List QueuedOp)
    → op_ids (pending_of held (unclaimed held stored)) ≡ read_back held (op_ids stored)
unfolding unclaimed pending_of op_ids read_back
ids-unclaimed none stored = refl
ids-unclaimed (some op) stored =
    ap (λ ids. op.id ∷ ids) (op_ids-filter (λ id. not (id == op.id)) stored)

-- The work that an action starts from: what waits, or what is read in place of it.
unfoldable pub work_before : Action → OutboxStore → List ℕ
work_before (submits now reachable input) s = ids s
work_before (returns now outcome op) s = ids s
work_before starts s = ids s
work_before claims s = ids s
work_before (answers reply) s = ids s
work_before (abandons claimed) s = ids s
work_before (dismisses id) s = ids s
work_before dismisses_all s = ids s
work_before resets s = ids s
work_before (starts_hydrate has_user) s = ids s
work_before (hydrates now generation stored) s =
    if replaces generation stored s then read_back s.inflight (op_ids stored) else ids s

Within-hydrate :
    (now generation : ℕ) (stored : List QueuedOp) (s : OutboxStore)
    → Within
        (ids (hydrate now generation stored s))
        (work_before (hydrates now generation stored) s)
unfolding hydrate work_before take_stored ids pending
Within-hydrate now generation stored s = elim (Bool-cases (replaces generation stored s)) [
  | inl b ↦
      let t : OutboxStore = take_stored stored s in
      rw (b, hydrate, work_before, ids-start_drain (enforce_bounds now t))
        (Within-trans _ _ _ (Within-enforce_bounds now t)
          (Within-same _ _ (ids-unclaimed s.inflight stored)))
  | inr b ↦ rw (b, hydrate, work_before) (Within-same (ids s) (ids s) refl)
]

-- Whatever happens to the outbox, the work that waits stays in the order in which it was queued:
-- one action takes some of it out, or none, and adds at most one op, at the end. The one action
-- that puts other work in its place is the read of the stored queue: then what waits is the op on
-- the wire and behind it the stored queue without that op, in its order, but for some of them.
pub act-Added :
    (action : Action) (s : OutboxStore)
    → (added : List ℕ) × (length added ≤ 1)
      × Within (ids (act action s)) (work_before action s ++ added)
unfolding act Added Kept adds_none work_before
act-Added (submits now reachable input) s = Added-submit now reachable input s
act-Added (returns now outcome op) s = Added-submitted now outcome op s
act-Added starts s = Kept-Added (act starts s) s (act-Within starts s refl)
act-Added claims s = Kept-Added (act claims s) s (act-Within claims s refl)
act-Added (answers reply) s =
    Kept-Added (act (answers reply) s) s (act-Within (answers reply) s refl)
act-Added (abandons claimed) s =
    Kept-Added (act (abandons claimed) s) s (act-Within (abandons claimed) s refl)
act-Added (dismisses id) s = Kept-Added (act (dismisses id) s) s (act-Within (dismisses id) s refl)
act-Added dismisses_all s = Kept-Added (act dismisses_all s) s (act-Within dismisses_all s refl)
act-Added resets s = Kept-Added (act resets s) s (act-Within resets s refl)
act-Added (starts_hydrate has_user) s =
    Kept-Added (act (starts_hydrate has_user) s) s (act-Within (starts_hydrate has_user) s refl)
act-Added (hydrates now generation stored) s = (
  [],
  omega arith,
  subst (Within (ids (hydrate now generation stored s)))
      (sym (no_more (work_before (hydrates now generation stored) s)))
      (Within-hydrate now generation stored s),
)
