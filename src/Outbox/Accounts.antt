-- ===== src/Outbox/Accounts.antt =====
-- No work leaves the outbox in silence.
use critical_path_api.Prelude.{
  ℕ, ◌≡◌, refl, Bool, true, false, ◌&&◌, ◌||◌, List, [], ◌∷◌, Option, none, some, arith, ltb, ◌==◌,
  ==_iff, length, contains, nat_eq, if_case, string_eq,
}
use critical_path_api.Outbox.{Request, QueuedOp, OutboxStore, pending}
use critical_path_api.Outbox.Hydrate.{start_drain}
use critical_path_api.Outbox.Stored.{ids-start_hydrate}
use critical_path_api.Outbox.Ids.{ids, ids-release, ids-claim_next, ids-advance_preconditions}
use critical_path_api.Outbox.Kept.{ids-raise_adjusted}
use critical_path_api.Outbox.Queue.{
  op_ids, forget, release, advance_preconditions, dismiss_issue, dismiss_all_issues,
}
use critical_path_api.Outbox.Replay.{
  SendOutcome, ok, unreachable, http, raise_adjusted, applied, finish, settle, Reply, settle_held,
  settle_claimed, stop_drain, Action, submits, returns, starts, claims, answers, abandons,
  dismisses, dismisses_all, resets, starts_hydrate, hydrates, leave_loop, act, run_all,
  is_already_applied,
}
use critical_path_api.Outbox.Issues.{
  confirms, confirms_held, raised, lets_go, ever_lets_go, Accounted, Accounted-same,
  Accounted-release, contains-forget, Accounted-submit, Accounted-submitted,
  Accounted-handle_http_failure, Accounted-hydrate,
}

-- The op that is confirmed may go.
Accounted-done :
    (id n : ℕ) (op : QueuedOp) (t : OutboxStore)
    → contains (ids t) id ≡ true
    → ((op.id == id) || (contains (ids (forget (op ∷ []) t)) id)) ≡ true
unfolding op_ids contains
Accounted-done id n op t h = ground (arith, contains-forget (op ∷ []) t id, h, ==_iff op.id id)

contains-adjusted :
    (id : ℕ) (exact : Bool) (now : ℕ) (op : QueuedOp) (s : OutboxStore)
    → contains (ids s) id ≡ true
    → contains (ids (raise_adjusted exact now op s)) id ≡ true
contains-adjusted id exact now op s h = rw (ids-raise_adjusted exact now op s) h

Accounted-or :
    (id n : ℕ) (c : Bool) (s : OutboxStore)
    → Accounted id n s
    → (contains (ids s) id || (c || ltb n (length s.issues))) ≡ true
unfolding Accounted
Accounted-or id n c s h = ground (arith, h)

Accounted-settle :
    (id now : ℕ) (exact : Bool) (request : Request) (outcome : SendOutcome) (op : QueuedOp)
    (s : OutboxStore)
    → contains (ids s) id ≡ true
    → (contains (ids (settle now exact request outcome op s).1) id
        || (confirms outcome op && op.id == id
            || ltb (length s.issues) (length (settle now exact request outcome op s).1.issues)))
      ≡ true
unfolding settle applied finish confirms
Accounted-settle id now exact request unreachable op s h =
    Accounted-or id (length s.issues) false (release op.id s) (
      Accounted-release id (length s.issues) op.id s
        (Accounted-same id (length s.issues) s s h refl))
Accounted-settle id now exact request (ok row) op s h =
    let adjusted : OutboxStore = raise_adjusted exact now op s in
    let advanced : OutboxStore = advance_preconditions op row adjusted in
    ground (
      arith,
      ids-release op.id (forget (op ∷ []) advanced),
      Accounted-done id 0 op advanced
          (rw (ids-advance_preconditions op row adjusted) (contains-adjusted id exact now op s h)),
    )
Accounted-settle id now exact request (http status) op s h =
    if_case
      (λ (r : Bool × OutboxStore).
        (contains (ids r.1) id
          || (is_already_applied op status && op.id == id
              || ltb (length s.issues) (length r.1.issues)))
        ≡ true)
      (is_already_applied op status) _ _
      (λ b. ground (
        arith,
        b,
        ids-release op.id (forget (op ∷ []) (raise_adjusted exact now op s)),
        Accounted-done id 0 op (raise_adjusted exact now op s)
            (contains-adjusted id exact now op s h),
      ))
      (λ b. Accounted-or id (length s.issues) _ _ (
        Accounted-release id (length s.issues) op.id _
          (Accounted-handle_http_failure id now status request op s h)))

ids-leave_loop : (r : Bool × OutboxStore) → ids (leave_loop r) ≡ ids r.1
unfolding leave_loop stop_drain ids pending
ids-leave_loop (left, s) =
    if_case (λ (t : OutboxStore). ids t ≡ ids s) (left || length s.ops == 0) _ _ (λ b. refl)
      (λ b. refl)

issues-leave_loop : (r : Bool × OutboxStore) → (leave_loop r).issues ≡ r.1.issues
unfolding leave_loop stop_drain
issues-leave_loop (left, s) =
    if_case (λ (t : OutboxStore). t.issues ≡ s.issues) (left || length s.ops == 0) _ _ (λ b. refl)
      (λ b. refl)

Accounted-settle_held :
    (id : ℕ) (reply : Reply) (held : Option QueuedOp) (s : OutboxStore)
    → contains (ids s) id ≡ true
    → (contains (ids (leave_loop (settle_held reply held s))) id
        || (confirms_held reply.outcome held id
            || ltb (length s.issues) (length (leave_loop (settle_held reply held s)).issues)))
      ≡ true
unfolding settle_held confirms_held
Accounted-settle_held id reply none s h = rw (ids-leave_loop (false, s), h) refl
Accounted-settle_held id reply (some op) s h =
    let r : Bool × OutboxStore = settle reply.now reply.exact reply.request reply.outcome op s in
    rw (ids-leave_loop r, issues-leave_loop r)
      (Accounted-settle id reply.now reply.exact reply.request reply.outcome op s h)

act-accounts :
    (action : Action) (s : OutboxStore) (id : ℕ)
    → contains (ids s) id ≡ true
    → (contains (ids (act action s)) id || lets_go action s id) ≡ true
unfolding act lets_go raised settle_claimed Accounted start_drain dismiss_issue dismiss_all_issues
    ids pending
act-accounts (submits now reachable input) s id h = Accounted-submit id now reachable input s h
act-accounts (returns now outcome op) s id h = Accounted-submitted id now outcome op s h
act-accounts starts s id h =
    if_case (λ (t : OutboxStore). (contains (ids t) id || false) ≡ true) (length s.ops == 0) _ _
      (λ b. rw (h) refl) (λ b. rw (h) refl)
act-accounts claims s id h = rw (ids-claim_next s, h) refl
act-accounts (answers reply) s id h = Accounted-settle_held id reply s.inflight s h
act-accounts (abandons claimed) s id h = rw (ids-release claimed s, h) refl
act-accounts (dismisses issue) s id h = rw (h) refl
act-accounts dismisses_all s id h = rw (h) refl
act-accounts resets s id h = ground arith
act-accounts (starts_hydrate has_user) s id h = rw (ids-start_hydrate has_user s, h) refl
act-accounts (hydrates now generation stored) s id h =
    Accounted-hydrate id now generation stored s h

-- However submits, answers, sign-outs and reads of the stored queue interleave, an op that is
-- among the work stays there until one of four things happens: an answer confirms it, an issue is
-- raised at that moment, the account signs out, or a stored queue without it is read in place of
-- the queue.
pub run_all-accounts :
    (actions : List Action) (s : OutboxStore) (id : ℕ)
    → contains (ids s) id ≡ true
    → (contains (ids (run_all actions s)) id || ever_lets_go actions s id) ≡ true
unfolding run_all ever_lets_go
run_all-accounts [] s id h = rw (h) refl
run_all-accounts (action ∷ actions) s id h =
    ground (arith, act-accounts action s id h, run_all-accounts actions (act action s) id)
