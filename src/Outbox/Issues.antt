-- ===== src/Outbox/Issues.antt =====
-- What raises an issue in the outbox, or leaves an op where it is.
use Prim.Native.String.{String}
use critical_path_api.Prelude.{
  Bool-cases, ◌-◌, ℕ, suc, ◌+◌, ◌<◌, ◌≡◌, refl, ap, ◌∙◌, inl, inr, Bool, true, false, not, ◌&&◌,
  ◌||◌, List, [], ◌∷◌, ◌++◌, Option, none, some, foldl, arith, ltb, leb, ◌==◌, length, contains,
  nat_eq, if_case, Option-cases, insert, length-append, string_eq, contains-filter, contains-append,
}
use critical_path_api.Outbox.{
  max_queued_ops, max_queue_age_ms, Request, QueuedOp, IssueReason, expired, conflict_raised,
  SubmitInput, OutboxStore, build, is_content_edit, is_move, max_server_error_attempts, pending,
}
use critical_path_api.Outbox.Ids.{ids, ids-forget, ids-bump_in, ids-bump_attempts, ids-release}
use critical_path_api.Outbox.Order.{ids-push}
use critical_path_api.Outbox.Queue.{
  overdue, op_ids, raise, forget, raise_expired, enforce_bounds, coalesce, enqueue, release_held,
  release, bump_attempts, has_conflict,
}
use critical_path_api.Outbox.Hydrate.{replaces, take_stored, hydrate}
use critical_path_api.Outbox.Stored.{ids-start_drain, issues-start_drain, contains-take_stored}
use critical_path_api.Outbox.Replay.{
  SendOutcome, ok, unreachable, http, Verdict, raise_conflict, fail_entity, drop_op,
  handle_http_failure, submit, submitted, Action, submits, returns, starts, claims, answers,
  abandons, dismisses, dismisses_all, resets, starts_hydrate, hydrates, act, is_already_applied,
}

-- Does the answer say that the op on the wire is done?
unfoldable pub confirms : SendOutcome → QueuedOp → Bool
confirms (ok row) op = true
confirms unreachable op = false
confirms (http status) op = is_already_applied op status

unfoldable pub confirms_held : SendOutcome → Option QueuedOp → ℕ → Bool
confirms_held outcome none id = false
confirms_held outcome (some op) id = confirms outcome op && op.id == id

-- Is an issue raised on the way from one store to another?
unfoldable pub raised : OutboxStore → OutboxStore → Bool
raised s s' = ltb (length s.issues) (length s'.issues)

-- What lets an op leave the queue: an answer that it is done, an issue, the end of the account, or a
-- stored queue without it that is read in place of the queue.
unfoldable pub lets_go : Action → OutboxStore → ℕ → Bool
lets_go (submits now reachable input) s id = raised s (act (submits now reachable input) s)
lets_go (returns now outcome op) s id = raised s (act (returns now outcome op) s)
lets_go starts s id = false
lets_go claims s id = false
lets_go (answers reply) s id =
    confirms_held reply.outcome s.inflight id || raised s (act (answers reply) s)
lets_go (abandons claimed) s id = false
lets_go (dismisses issue) s id = false
lets_go dismisses_all s id = false
lets_go resets s id = true
lets_go (starts_hydrate has_user) s id = false
lets_go (hydrates now generation stored) s id =
    (replaces generation stored s && not (contains (op_ids stored) id))
    || raised s (act (hydrates now generation stored) s)

unfoldable pub ever_lets_go : List Action → OutboxStore → ℕ → Bool
ever_lets_go [] s id = false
ever_lets_go (action ∷ actions) s id = lets_go action s id || ever_lets_go actions (act action s) id

-- An op that was among the work is there still, or an issue was raised.
unfoldable pub Accounted : ℕ → ℕ → OutboxStore → Type 0
Accounted id n s = (contains (ids s) id || ltb n (length s.issues)) ≡ true

pub Accounted-same :
    (id n : ℕ) (s' s : OutboxStore)
    → contains (ids s) id ≡ true
    → ids s' ≡ ids s
    → Accounted id n s'
unfolding Accounted
Accounted-same id n s' s h k = rw (k, h) refl

Accounted-raised : (id n : ℕ) (s : OutboxStore) → n < length s.issues → Accounted id n s
unfolding Accounted
Accounted-raised id n s h = ground (arith, h)

issues-release_held :
    (claimed : ℕ) (held : Option QueuedOp) (s : OutboxStore)
    → (release_held claimed held s).issues ≡ s.issues
unfolding release_held
issues-release_held claimed none s = refl
issues-release_held claimed (some op) s =
    if_case (λ (t : OutboxStore). t.issues ≡ s.issues) (not (op.id == claimed)) _ _ (λ b. refl)
      (λ b. refl)

issues-release : (claimed : ℕ) (s : OutboxStore) → (release claimed s).issues ≡ s.issues
unfolding release
issues-release claimed s = issues-release_held claimed s.inflight s

pub Accounted-release :
    (id n claimed : ℕ) (s : OutboxStore) → Accounted id n s → Accounted id n (release claimed s)
unfolding Accounted
Accounted-release id n claimed s h = rw (ids-release claimed s, issues-release claimed s) h

issues-raise :
    (now : ℕ) (reason : IssueReason) (task : Option String) (request : Request) (op : QueuedOp)
    (s : OutboxStore)
    → length (raise now reason task request op s).issues ≡ suc (length s.issues)
unfolding raise
issues-raise now reason task request op s = length-append s.issues _ ∙ omega arith

issues-expired :
    (now : ℕ) (doomed : List QueuedOp) (s : OutboxStore)
    → length (foldl (raise_expired now) s doomed).issues ≡ length s.issues + length doomed
unfolding raise_expired
issues-expired now [] s = omega arith
issues-expired now (op ∷ doomed) s = omega (
  arith,
  issues-expired now doomed (raise now expired none op.request op s),
  issues-raise now expired none op.request op s,
)

pub contains-forget :
    (doomed : List QueuedOp) (s : OutboxStore) (id : ℕ)
    → contains (ids (forget doomed s)) id
      ≡ (contains (ids s) id && not (contains (op_ids doomed) id))
contains-forget doomed s id =
    ap (λ xs. contains xs id) (ids-forget doomed s)
    ∙ contains-filter (λ id. not (contains (op_ids doomed) id)) (ids s) id

Accounted-expired :
    (id now : ℕ) (doomed : List QueuedOp) (s : OutboxStore)
    → contains (ids s) id ≡ true
    → Accounted id (length s.issues) (forget doomed (foldl (raise_expired now) s doomed))
unfolding forget op_ids contains Accounted
Accounted-expired id now [] s h = rw (contains-forget [] s id, h) refl
Accounted-expired id now (op ∷ ops) s h =
    Accounted-raised id (length s.issues) _ (omega (arith, issues-expired now (op ∷ ops) s))

Accounted-enqueue :
    (id now : ℕ) (op : QueuedOp) (s : OutboxStore)
    → contains (ids s) id ≡ true
    → Accounted id (length s.issues) (enqueue now op s)
unfolding enqueue enforce_bounds ids pending
Accounted-enqueue id now op s h = elim (Option-cases (coalesce op s.ops)) [
  | inl e ↦
      rw (enqueue, e)
        (Accounted-expired id now _ (record s { ops = s.ops ++ op ∷ [] })
          (ap (λ xs. contains xs id) (ids-push op s.inflight s.ops)
            ∙ contains-append (ids s) (op.id ∷ []) id
            ∙ rw (h) refl))
  | inr (merged, e) ↦
      rw (enqueue, e)
        (Accounted-same id (length s.issues) _ s h (ids-bump_in merged s.inflight s.ops))
]

pub Accounted-submit :
    (id now : ℕ) (reachable : Bool) (input : SubmitInput) (s : OutboxStore)
    → contains (ids s) id ≡ true
    → Accounted id (length s.issues) (submit now reachable input s).1
unfolding submit build ids pending
Accounted-submit id now reachable input s h =
    let (op, built) = build now input s in
    if_case (λ (r : Option QueuedOp × OutboxStore). Accounted id (length s.issues) r.1)
      (not reachable || ltb 0 (length (pending s)) || s.draining) _ _
      (λ b. Accounted-enqueue id now op built h)
      (λ b. Accounted-same id (length s.issues) built s h refl)

pub Accounted-submitted :
    (id now : ℕ) (outcome : SendOutcome) (op : QueuedOp) (s : OutboxStore)
    → contains (ids s) id ≡ true
    → Accounted id (length s.issues) (submitted now outcome op s)
unfolding submitted
Accounted-submitted id now (ok row) op s h = Accounted-same id (length s.issues) s s h refl
Accounted-submitted id now unreachable op s h = Accounted-enqueue id now op s h
Accounted-submitted id now (http status) op s h = Accounted-same id (length s.issues) s s h refl

Accounted-raise-forget :
    (id now : ℕ) (reason : IssueReason) (task : Option String) (request : Request) (op : QueuedOp)
    (doomed : List QueuedOp) (s : OutboxStore)
    → Accounted id (length s.issues) (forget doomed (raise now reason task request op s))
unfolding forget
Accounted-raise-forget id now reason task request op doomed s =
    Accounted-raised id (length s.issues) _
      (omega (arith, issues-raise now reason task request op s))

Accounted-raise_conflict :
    (id now : ℕ) (op : QueuedOp) (s : OutboxStore)
    → contains (ids s) id ≡ true
    → Accounted id (length s.issues) (raise_conflict now op s)
unfolding raise_conflict
Accounted-raise_conflict id now op s h = elim (Option-cases op.conflict) [
  | inl e ↦ rw (raise_conflict, e) (Accounted-same id (length s.issues) s s h refl)
  | inr (held, e) ↦
      rw (raise_conflict, e)
        (Accounted-raise-forget id now conflict_raised (some held.task_id) op.request op (op ∷ [])
          (record s { drafts = insert held.task_id held s.drafts }))
]

pub Accounted-handle_http_failure :
    (id now status : ℕ) (request : Request) (op : QueuedOp) (s : OutboxStore)
    → contains (ids s) id ≡ true
    → Accounted id (length s.issues) (handle_http_failure now status request op s).1
unfolding handle_http_failure fail_entity drop_op
Accounted-handle_http_failure id now status request op s h =
    let P : Verdict × OutboxStore → Type 0 = λ r. Accounted id (length s.issues) r.1 in
    let bumped : Accounted id (length s.issues) (bump_attempts op s) =
      Accounted-same id (length s.issues) _ s h (ids-bump_attempts op s) in
    if_case P (status == 401) _ _ (λ b. Accounted-same id (length s.issues) s s h refl)
      (λ b.
        if_case P (status == 409 && is_content_edit op.semantics && has_conflict op) _ _
          (λ b. Accounted-raise_conflict id now op s h)
          (λ b.
            if_case P (status == 409 && is_move op.semantics && op.attempts == 0) _ _ (λ b. bumped)
              (λ b.
                if_case P (status == 404 || status == 403) _ _
                  (λ b. Accounted-raise-forget id now _ none request op _ s)
                  (λ b.
                    if_case P (leb 500 status && ltb (suc op.attempts) max_server_error_attempts) _
                      _ (λ b. bumped) (λ b. Accounted-raise-forget id now _ none request op _ s)))))

pub Accounted-hydrate :
    (id now generation : ℕ) (stored : List QueuedOp) (s : OutboxStore)
    → contains (ids s) id ≡ true
    → (contains (ids (hydrate now generation stored s)) id
        || ((replaces generation stored s && not (contains (op_ids stored) id))
            || raised s (hydrate now generation stored s)))
      ≡ true
unfolding hydrate raised enforce_bounds Accounted take_stored
Accounted-hydrate id now generation stored s h = elim (Bool-cases (replaces generation stored s)) [
  | inr b ↦ rw (b, hydrate, h) refl
  | inl b ↦ elim (Bool-cases (contains (op_ids stored) id)) [
    | inr gone ↦ rw (b, gone) (ground arith)
    | inl there ↦
        let t : OutboxStore = take_stored stored s in
        rw
          (
            b,
            hydrate,
            ids-start_drain (enforce_bounds now t),
            issues-start_drain (enforce_bounds now t),
          )
          (ground (
            arith,
            Accounted-expired id now
                (overdue (length t.ops - max_queued_ops) (now - max_queue_age_ms) t.ops) t
                (contains-take_stored stored s id there),
          ))
  ]
]
