-- ===== src/Outbox/Rounds.antt =====
-- A round of the drain leaves less to send.
use Prim.Native.String.{String}
use critical_path_api.Prelude.{
  ℕ, suc, ◌+◌, ◌-◌, ◌*◌, ◌≤◌, ◌<◌, ◌≡◌, refl, sym, ap, ◌∙◌, subst, inl, inr, Bool, true, false, not,
  ◌&&◌, ◌||◌, List, [], ◌∷◌, Option, none, some, map, arith, ltb, leb, ◌==◌, ==_self, length,
  filter, contains, nat_eq, lookup, if_case, Option-cases, insert, string_eq,
}
use critical_path_api.Outbox.{
  Json, text, null, other, undefined, Body, Request, QueuedOp, IssueReason, conflict_raised,
  OutboxStore, is_content_edit, is_move, max_server_error_attempts, pending, pending_of,
}
use critical_path_api.Outbox.Queue.{
  op_ids, raise, clear_claim, forget, release_held, release, holds, bump_attempts, edits, has_field,
  advance, advance_all, advance_preconditions, has_conflict,
}
use critical_path_api.Outbox.Replay.{
  SendOutcome, ok, unreachable, http, Verdict, retry, next, retry_fresh, stops, raise_conflict,
  same_entity, fail_entity, drop_op, handle_http_failure, raise_adjusted, applied, finish, settle,
  is_already_applied,
}

-- How often an op can still be sent, if every answer to it fails.
unfoldable pub chances : QueuedOp → ℕ
chances op = suc (2 - op.attempts)

unfoldable pub total : List QueuedOp → ℕ
total [] = 0
total (op ∷ ops) = chances op + total ops

-- Answers that stop a drain: nobody was reached, or the session is refused.
unfoldable pub stopping : SendOutcome → Bool
stopping (ok row) = false
stopping unreachable = true
stopping (http status) = status == 401

total-filter : (keep : QueuedOp → Bool) (ops : List QueuedOp) → total (filter keep ops) ≤ total ops
unfolding total filter
total-filter keep [] = omega arith
total-filter keep (op ∷ ops) = ground (arith, total-filter keep ops)

pub total-length : (ops : List QueuedOp) → total ops ≤ 3 * length ops
unfolding total chances
total-length [] = omega arith
total-length (op ∷ ops) = omega (arith, total-length ops)

attempts-advance :
    (entity updated_at : String) (op : QueuedOp)
    → (advance entity updated_at op).attempts ≡ op.attempts
unfolding advance
attempts-advance entity updated_at op =
    if_case (λ (t : QueuedOp). t.attempts ≡ op.attempts)
      (edits entity op && has_field "expected_updated_at" op.request.body) _ _ (λ b. refl)
      (λ b. refl)

total-advance :
    (entity updated_at : String) (ops : List QueuedOp)
    → total (map (advance entity updated_at) ops) ≡ total ops
unfolding total chances
total-advance entity updated_at [] = refl
total-advance entity updated_at (op ∷ ops) =
    omega (arith, attempts-advance entity updated_at op, total-advance entity updated_at ops)

total-advance_all :
    (entity : String) (at : Option Json) (ops : List QueuedOp)
    → total (advance_all entity at ops) ≡ total ops
unfolding advance_all
total-advance_all entity none ops = refl
total-advance_all entity (some null) ops = refl
total-advance_all entity (some (other value)) ops = refl
total-advance_all entity (some undefined) ops = refl
total-advance_all entity (some (text updated_at)) ops = total-advance entity updated_at ops

-- A round that goes on: nothing is left on the wire, and less remains to be sent.
unfoldable pub Progress : ℕ → Bool × OutboxStore → Type 0
Progress n r = (r.0 ≡ false) × (r.1.inflight ≡ none) × (total r.1.ops < n)

release-none : (claimed : ℕ) (s : OutboxStore) → s.inflight ≡ none → release claimed s ≡ s
unfolding release release_held
release-none claimed s h = ap (λ held. release_held claimed held s) h

release-some :
    (op : QueuedOp) (s : OutboxStore)
    → s.inflight ≡ some op
    → release op.id s ≡ record s { ops = op ∷ s.ops; inflight = none }
unfolding release release_held
release-some op s h = ap (λ held. release_held op.id held s) h ∙ rw (==_self op.id) refl

-- What is forgotten with the op on the wire is gone.
Progress-forget :
    (op : QueuedOp) (doomed : List QueuedOp) (t : OutboxStore)
    → t.inflight ≡ some op
    → contains (op_ids doomed) op.id ≡ true
    → Progress (chances op + total t.ops) (false, release op.id (forget doomed t))
unfolding Progress forget clear_claim chances
Progress-forget op doomed t h c =
    let cleared : (forget doomed t).inflight ≡ none =
      ap (clear_claim (op_ids doomed)) h ∙ rw (clear_claim, c) refl in
    subst
      (λ (u : OutboxStore).
        (false ≡ false) × (u.inflight ≡ none) × (total u.ops < chances op + total t.ops))
      (sym (release-none op.id (forget doomed t) cleared))
      (
        refl,
        cleared,
        omega (arith, total-filter (λ op. not (contains (op_ids doomed) op.id)) t.ops),
      )

contains_self : (op : QueuedOp) (ops : List QueuedOp) → contains (op_ids (op ∷ ops)) op.id ≡ true
unfolding contains op_ids
contains_self op ops = rw (==_self op.id) refl

-- An op that is tried again has one chance less.
Progress-bump :
    (op : QueuedOp) (s : OutboxStore) (verdict : Verdict)
    → s.inflight ≡ some op
    → stops verdict ≡ false
    → op.attempts < 2
    → Progress (chances op + total s.ops) (finish op (verdict, bump_attempts op s))
unfolding Progress finish bump_attempts holds chances total
Progress-bump op s verdict h v a =
    let updated : QueuedOp = record op { attempts = suc op.attempts } in
    let on_wire : holds op.id s.inflight ≡ true = ap (holds op.id) h ∙ ==_self op.id in
    let t : OutboxStore = record s { inflight = some updated } in
    rw (on_wire) (
      subst
        (λ (u : OutboxStore).
          (stops verdict ≡ false) × (u.inflight ≡ none) × (total u.ops < chances op + total s.ops))
        (sym (release-some updated t refl)) (v, refl, omega (arith, a)))

retry_goes_on : stops retry ≡ false
unfolding stops
retry_goes_on = refl

retry_fresh_goes_on : stops retry_fresh ≡ false
unfolding stops
retry_fresh_goes_on = refl

dropped :
    (now : ℕ) (reason : IssueReason) (task : Option String) (request : Request) (op : QueuedOp)
    (s : OutboxStore)
    → s.inflight ≡ some op
    → Progress
        (chances op + total s.ops)
        (finish op (next, forget (op ∷ []) (raise now reason task request op s)))
unfolding finish stops raise
dropped now reason task request op s h =
    Progress-forget op (op ∷ []) (raise now reason task request op s) h (contains_self op [])

no_conflict : (op : QueuedOp) → op.conflict ≡ none → has_conflict op ≡ true → ⊥
unfolding has_conflict
no_conflict op e c = ground (arith, e, c)

conflicted :
    (now : ℕ) (op : QueuedOp) (s : OutboxStore)
    → s.inflight ≡ some op
    → has_conflict op ≡ true
    → Progress (chances op + total s.ops) (finish op (next, raise_conflict now op s))
unfolding raise_conflict has_conflict chances finish
conflicted now op s h c = elim (Option-cases op.conflict) [
  | inl e ↦ absurd (no_conflict op e c)
  | inr (held, e) ↦
      rw (raise_conflict, e)
        (dropped now conflict_raised (some held.task_id) op.request op
          (record s { drafts = insert held.task_id held s.drafts }) h)
]

contains-entity :
    (op : QueuedOp) (ops : List QueuedOp)
    → contains (op_ids (filter (same_entity op.entity_id) (op ∷ ops))) op.id ≡ true
unfolding same_entity op_ids filter contains
contains-entity op ops =
    rw ((string_eq.beq_iff op.entity_id op.entity_id).1 refl, ==_self op.id) refl

doomed :
    (now : ℕ) (reason : IssueReason) (request : Request) (op : QueuedOp) (s : OutboxStore)
    → s.inflight ≡ some op
    → Progress (chances op + total s.ops) (finish op (next, fail_entity now reason request op s))
unfolding finish stops raise fail_entity pending pending_of
doomed now reason request op s h =
    Progress-forget op (filter (same_entity op.entity_id) (pending s))
      (raise now reason none request op s) h (rw (pending, h) (contains-entity op s.ops))

Progress-http :
    (now status : ℕ) (request : Request) (op : QueuedOp) (s : OutboxStore)
    → s.inflight ≡ some op
    → (status == 401) ≡ false
    → Progress (chances op + total s.ops) (finish op (handle_http_failure now status request op s))
unfolding handle_http_failure fail_entity drop_op
Progress-http now status request op s h live =
    let P : Verdict × OutboxStore → Type 0 =
      λ r. Progress (chances op + total s.ops) (finish op r) in
    if_case P (status == 401) _ _ (λ b. ground (arith, b, live))
      (λ b.
        if_case P (status == 409 && is_content_edit op.semantics && has_conflict op) _ _
          (λ b. conflicted now op s h (ground (arith, b)))
          (λ b.
            if_case P (status == 409 && is_move op.semantics && op.attempts == 0) _ _
              (λ b. Progress-bump op s retry_fresh h retry_fresh_goes_on (ground (arith, b)))
              (λ b.
                if_case P (status == 404 || status == 403) _ _ (λ b. doomed now _ request op s h)
                  (λ b.
                    if_case P (leb 500 status && ltb (suc op.attempts) max_server_error_attempts) _
                      _ (λ b. Progress-bump op s retry h retry_goes_on (ground (arith, b)))
                      (λ b. dropped now _ none request op s h)))))

inflight-adjusted :
    (exact : Bool) (now : ℕ) (op : QueuedOp) (s : OutboxStore)
    → ((raise_adjusted exact now op s).inflight ≡ s.inflight)
      × ((raise_adjusted exact now op s).ops ≡ s.ops)
unfolding raise_adjusted raise
inflight-adjusted true now op s = (refl, refl)
inflight-adjusted false now op s = (refl, refl)

advanced :
    (op : QueuedOp) (row : Body) (s : OutboxStore)
    → ((advance_preconditions op row s).inflight ≡ s.inflight)
      × (total (advance_preconditions op row s).ops ≡ total s.ops)
unfolding advance_preconditions
advanced op row s =
    if_case (λ (t : OutboxStore). (t.inflight ≡ s.inflight) × (total t.ops ≡ total s.ops))
      (not (is_content_edit op.semantics)) _ _ (λ b. (refl, refl))
      (λ b. (refl, total-advance_all op.entity_id (lookup "updated_at" row) s.ops))

pub Progress-settle :
    (now : ℕ) (exact : Bool) (request : Request) (outcome : SendOutcome) (op : QueuedOp)
    (s : OutboxStore)
    → s.inflight ≡ some op
    → stopping outcome ≡ false
    → Progress (chances op + total s.ops) (settle now exact request outcome op s)
unfolding settle stopping applied
Progress-settle now exact request unreachable op s h live = ground arith
Progress-settle now exact request (ok row) op s h live =
    let adjusted : OutboxStore = raise_adjusted exact now op s in
    let (same, ops) = inflight-adjusted exact now op s in
    let (same', left) = advanced op row adjusted in
    subst
      (λ n.
        Progress (chances op + n)
          (false, release op.id (forget (op ∷ []) (advance_preconditions op row adjusted))))
      (left ∙ ap total ops)
      (Progress-forget op (op ∷ []) (advance_preconditions op row adjusted) (same' ∙ same ∙ h)
        (contains_self op []))
Progress-settle now exact request (http status) op s h live =
    let (same, ops) = inflight-adjusted exact now op s in
    if_case (Progress (chances op + total s.ops)) (is_already_applied op status) _ _
      (λ b.
        subst
          (λ n.
            Progress (chances op + n)
              (false, release op.id (forget (op ∷ []) (raise_adjusted exact now op s))))
          (ap total ops)
          (Progress-forget op (op ∷ []) (raise_adjusted exact now op s) (same ∙ h)
            (contains_self op [])))
      (λ b. Progress-http now status request op s h live)
