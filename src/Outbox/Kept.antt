-- ===== src/Outbox/Kept.antt =====
-- What a round of the drain takes out of the work, in its order.
use Prim.Native.String.{String}
use critical_path_api.Prelude.{
  ℕ, suc, ◌≡◌, refl, ◌∙◌, inl, inr, Bool, true, false, ◌&&◌, ◌||◌, List, [], ◌∷◌, Option, none,
  some, ltb, leb, ◌==◌, length, nat_eq, string_eq, if_case, Option-cases,
}
use critical_path_api.Outbox.{
  Request, QueuedOp, IssueReason, approximate_placement, is_move, max_server_error_attempts,
  OutboxStore, pending, is_content_edit,
}
use critical_path_api.Outbox.Queue.{raise, forget, release, bump_attempts, has_conflict}
use critical_path_api.Outbox.Replay.{
  SendOutcome, ok, unreachable, http, Verdict, raise_conflict, fail_entity, drop_op,
  handle_http_failure, raise_adjusted, applied, finish, settle, Reply, settle_held, stop_drain,
  leave_loop, is_already_applied,
}
use critical_path_api.Outbox.Ids.{
  Within, Within-same, Within-trans, ids, forget-Within, ids-release, ids-bump_attempts,
  ids-advance_preconditions,
}

-- One store has the work of another but for some of it, in the same order.
unfoldable pub Kept : OutboxStore → OutboxStore → Type 0
Kept s' s = Within (ids s') (ids s)

pub Kept-same : (s' s : OutboxStore) → ids s' ≡ ids s → Kept s' s
unfolding Kept
Kept-same s' s h = Within-same (ids s') (ids s) h

pub Kept-trans : (u t s : OutboxStore) → Kept u t → Kept t s → Kept u s
unfolding Kept
Kept-trans u t s h k = Within-trans (ids u) (ids t) (ids s) h k

Kept-forget : (doomed : List QueuedOp) (s : OutboxStore) → Kept (forget doomed s) s
unfolding Kept
Kept-forget doomed s = forget-Within doomed s

Kept-release : (claimed : ℕ) (t s : OutboxStore) → Kept t s → Kept (release claimed t) s
Kept-release claimed t s k =
    Kept-trans (release claimed t) t s (Kept-same _ _ (ids-release claimed t)) k

pub ids-raise :
    (now : ℕ) (reason : IssueReason) (task : Option String) (request : Request) (op : QueuedOp)
    (s : OutboxStore)
    → ids (raise now reason task request op s) ≡ ids s
unfolding raise ids pending
ids-raise now reason task request op s = refl

pub ids-raise_adjusted :
    (exact : Bool) (now : ℕ) (op : QueuedOp) (s : OutboxStore)
    → ids (raise_adjusted exact now op s) ≡ ids s
unfolding raise_adjusted
ids-raise_adjusted true now op s = refl
ids-raise_adjusted false now op s = ids-raise now approximate_placement none op.request op s

Kept-forget_of :
    (doomed : List QueuedOp) (t s : OutboxStore) → ids t ≡ ids s → Kept (forget doomed t) s
Kept-forget_of doomed t s h =
    Kept-trans (forget doomed t) t s (Kept-forget doomed t) (Kept-same t s h)

Kept-raise_conflict : (now : ℕ) (op : QueuedOp) (s : OutboxStore) → Kept (raise_conflict now op s) s
unfolding raise_conflict ids pending raise
Kept-raise_conflict now op s = elim (Option-cases op.conflict) [
  | inl h ↦ rw (raise_conflict, h) (Kept-same s s refl)
  | inr (held, h) ↦ rw (raise_conflict, h) (Kept-forget_of (op ∷ []) _ s refl)
]

Kept-fail_entity :
    (now : ℕ) (reason : IssueReason) (request : Request) (op : QueuedOp) (s : OutboxStore)
    → Kept (fail_entity now reason request op s) s
unfolding fail_entity
Kept-fail_entity now reason request op s =
    Kept-forget_of _ _ s (ids-raise now reason none request op s)

Kept-drop_op :
    (now : ℕ) (reason : IssueReason) (request : Request) (op : QueuedOp) (s : OutboxStore)
    → Kept (drop_op now reason request op s) s
unfolding drop_op
Kept-drop_op now reason request op s = Kept-forget_of _ _ s (ids-raise now reason none request op s)

Kept-handle_http_failure :
    (now status : ℕ) (request : Request) (op : QueuedOp) (s : OutboxStore)
    → Kept (handle_http_failure now status request op s).1 s
unfolding handle_http_failure
Kept-handle_http_failure now status request op s =
    let P : Verdict × OutboxStore → Type 0 = λ r. Kept r.1 s in
    let bumped : Kept (bump_attempts op s) s = Kept-same _ s (ids-bump_attempts op s) in
    if_case P (status == 401) _ _ (λ b. Kept-same s s refl)
      (λ b.
        if_case P (status == 409 && is_content_edit op.semantics && has_conflict op) _ _
          (λ b. Kept-raise_conflict now op s)
          (λ b.
            if_case P (status == 409 && is_move op.semantics && op.attempts == 0) _ _ (λ b. bumped)
              (λ b.
                if_case P (status == 404 || status == 403) _ _
                  (λ b. Kept-fail_entity now _ request op s)
                  (λ b.
                    if_case P (leb 500 status && ltb (suc op.attempts) max_server_error_attempts) _
                      _ (λ b. bumped) (λ b. Kept-drop_op now _ request op s)))))

Kept-settle :
    (now : ℕ) (exact : Bool) (request : Request) (outcome : SendOutcome) (op : QueuedOp)
    (s : OutboxStore)
    → Kept (settle now exact request outcome op s).1 s
unfolding settle applied finish
Kept-settle now exact request unreachable op s = Kept-release op.id s s (Kept-same s s refl)
Kept-settle now exact request (ok row) op s = Kept-release op.id _ s (
    Kept-forget_of (op ∷ []) _ s (
      ids-advance_preconditions op row (raise_adjusted exact now op s)
      ∙ ids-raise_adjusted exact now op s))
Kept-settle now exact request (http status) op s =
    if_case (λ (r : Bool × OutboxStore). Kept r.1 s) (is_already_applied op status) _ _
      (λ b.
        Kept-release op.id _ s (Kept-forget_of (op ∷ []) _ s (ids-raise_adjusted exact now op s)))
      (λ b. Kept-release op.id _ s (Kept-handle_http_failure now status request op s))

pub Kept-settle_held :
    (reply : Reply) (held : Option QueuedOp) (s : OutboxStore) → Kept (settle_held reply held s).1 s
unfolding settle_held
Kept-settle_held reply none s = Kept-same s s refl
Kept-settle_held reply (some op) s =
    Kept-settle reply.now reply.exact reply.request reply.outcome op s

pub Kept-leave_loop : (r : Bool × OutboxStore) → Kept (leave_loop r) r.1
unfolding leave_loop stop_drain ids pending
Kept-leave_loop (left, s) =
    if_case (λ t. Kept t s) (left || length s.ops == 0) _ _ (λ b. Kept-same _ s refl)
      (λ b. Kept-same s s refl)
