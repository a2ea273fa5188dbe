-- ===== src/Outbox/Ids.antt =====
-- The ids of the work that waits, through each operation on the queue.
use Prim.Native.String.{String}
use critical_path_api.Prelude.{
  ℕ, ◌≡◌, refl, sym, ap, ◌∙◌, inl, inr, Bool, true, false, not, ◌&&◌, List, [], ◌∷◌, Option, none,
  some, map, arith, ◌==◌, ==_iff, filter, contains, nat_eq, string_eq, lookup, Bool-cases,
}
use critical_path_api.Outbox.{
  Json, text, null, other, undefined, Body, QueuedOp, OutboxStore, pending, pending_of,
  is_content_edit,
}
use critical_path_api.Outbox.Queue.{
  op_ids, clear_claim, forget, replace, claim_first, claim, release_held, release, holds,
  bump_attempts, advance, advance_all, advance_preconditions, edits, has_field,
}
use critical_path_api.Outbox.Replay.{claim_next, claim_unless}

-- A list without some of its elements.
unfoldable pub Within : List ℕ → List ℕ → Type 0
Within xs ys = (keep : ℕ → Bool) × (xs ≡ filter keep ys)

filter-all : (xs : List ℕ) → filter (λ x. true) xs ≡ xs
unfolding filter
filter-all [] = refl
filter-all (x ∷ xs) = ap (λ ys. x ∷ ys) (filter-all xs)

pub filter-none : (xs : List ℕ) → filter (λ x. false) xs ≡ []
unfolding filter
filter-none [] = refl
filter-none (x ∷ xs) = filter-none xs

filter-filter :
    (p q : ℕ → Bool) (xs : List ℕ) → filter p (filter q xs) ≡ filter (λ x. q x && p x) xs
unfolding filter
filter-filter p q [] = refl
filter-filter p q (x ∷ xs) = ground (arith, filter-filter p q xs)

pub Within-same : (xs ys : List ℕ) → xs ≡ ys → Within xs ys
unfolding Within
Within-same xs ys h = (λ x. true, h ∙ sym (filter-all ys))

pub Within-trans : (xs ys zs : List ℕ) → Within xs ys → Within ys zs → Within xs zs
unfolding Within
Within-trans xs ys zs (p, h) (q, k) = (λ x. q x && p x, h ∙ ap (filter p) k ∙ filter-filter p q zs)

unfoldable pub ids : OutboxStore → List ℕ
ids s = op_ids (pending s)

pub op_ids-filter :
    (keep : ℕ → Bool) (ops : List QueuedOp)
    → op_ids (filter (λ op. keep op.id) ops) ≡ filter keep (op_ids ops)
unfolding op_ids filter
op_ids-filter keep [] = refl
op_ids-filter keep (op ∷ ops) = ground (arith, op_ids-filter keep ops)

ids-clear_claim :
    (doomed : List ℕ) (held : Option QueuedOp) (ops : List QueuedOp)
    → op_ids (pending_of (clear_claim doomed held) (filter (λ op. not (contains doomed op.id)) ops))
      ≡ filter (λ id. not (contains doomed id)) (op_ids (pending_of held ops))
unfolding pending_of clear_claim op_ids filter
ids-clear_claim doomed none ops = op_ids-filter (λ id. not (contains doomed id)) ops
ids-clear_claim doomed (some op) ops =
    ground (arith, op_ids-filter (λ id. not (contains doomed id)) ops)

pub ids-forget :
    (doomed : List QueuedOp) (s : OutboxStore)
    → ids (forget doomed s) ≡ filter (λ id. not (contains (op_ids doomed) id)) (ids s)
unfolding ids forget pending
ids-forget doomed s = ids-clear_claim (op_ids doomed) s.inflight s.ops

pub forget-Within :
    (doomed : List QueuedOp) (s : OutboxStore) → Within (ids (forget doomed s)) (ids s)
unfolding Within
forget-Within doomed s = (λ id. not (contains (op_ids doomed) id), ids-forget doomed s)

pub ids-replace :
    (merged : QueuedOp) (ops : List QueuedOp) → op_ids (replace merged ops) ≡ op_ids ops
unfolding op_ids replace
ids-replace merged [] = refl
ids-replace merged (op ∷ ops) = ground (arith, ids-replace merged ops, ==_iff op.id merged.id)

ids-release_held :
    (claimed : ℕ) (held : Option QueuedOp) (s : OutboxStore)
    → s.inflight ≡ held
    → ids (release_held claimed held s) ≡ ids s
unfolding ids pending pending_of release_held
ids-release_held claimed none s h = refl
ids-release_held claimed (some op) s h = elim (Bool-cases (op.id == claimed)) [
  | inl b ↦ rw (release_held, b) (sym (ap (λ o. op_ids (pending_of o s.ops)) h))
  | inr b ↦ rw (release_held, b) refl
]

pub ids-release : (claimed : ℕ) (s : OutboxStore) → ids (release claimed s) ≡ ids s
unfolding release
ids-release claimed s = ids-release_held claimed s.inflight s refl

ids-claim_first :
    (ops : List QueuedOp) (s : OutboxStore)
    → s.inflight ≡ none
    → s.ops ≡ ops
    → ids (claim_first ops s) ≡ ids s
unfolding ids pending pending_of claim_first
ids-claim_first [] s h e = refl
ids-claim_first (op ∷ ops) s h e = sym (ap op_ids e) ∙ sym (ap (λ o. op_ids (pending_of o s.ops)) h)

ids-claim_unless :
    (held : Option QueuedOp) (draining : Bool) (s : OutboxStore)
    → s.inflight ≡ held
    → ids (claim_unless held draining s) ≡ ids s
unfolding claim_unless claim
ids-claim_unless none true s h = ids-claim_first s.ops s h refl
ids-claim_unless none false s h = refl
ids-claim_unless (some op) draining s h = refl

pub ids-claim_next : (s : OutboxStore) → ids (claim_next s) ≡ ids s
unfolding claim_next
ids-claim_next s = ids-claim_unless s.inflight s.draining s refl

pub ids-bump_in :
    (updated : QueuedOp) (held : Option QueuedOp) (ops : List QueuedOp)
    → op_ids (pending_of held (replace updated ops)) ≡ op_ids (pending_of held ops)
unfolding pending_of op_ids
ids-bump_in updated none ops = ids-replace updated ops
ids-bump_in updated (some op) ops = ap (λ ids. op.id ∷ ids) (ids-replace updated ops)

ids-held :
    (id : ℕ) (updated : QueuedOp) (held : Option QueuedOp) (ops : List QueuedOp)
    → updated.id ≡ id
    → holds id held ≡ true
    → op_ids (pending_of (some updated) ops) ≡ op_ids (pending_of held ops)
unfolding pending_of op_ids holds
ids-held id updated none ops u h = ground arith
ids-held id updated (some op) ops u h =
    ap (λ id. id ∷ op_ids ops) (ground (arith, u, h, ==_iff op.id id))

pub ids-bump_attempts : (op : QueuedOp) (s : OutboxStore) → ids (bump_attempts op s) ≡ ids s
unfolding ids pending bump_attempts
ids-bump_attempts op s = elim (Bool-cases (holds op.id s.inflight)) [
  | inl b ↦ rw (bump_attempts, b) (ids-held op.id _ s.inflight s.ops refl b)
  | inr b ↦ rw (bump_attempts, b) (ids-bump_in _ s.inflight s.ops)
]

ap2_cons : {x y : ℕ} {xs ys : List ℕ} → x ≡ y → xs ≡ ys → x ∷ xs ≡ y ∷ ys
ap2_cons h k = λ i. h i ∷ k i

advance_id :
    (entity updated_at : String) (op : QueuedOp) → (advance entity updated_at op).id ≡ op.id
unfolding advance
advance_id entity updated_at op =
    elim (Bool-cases (edits entity op && has_field "expected_updated_at" op.request.body)) [
      | inl b ↦ rw (advance, b) refl
      | inr b ↦ rw (advance, b) refl
    ]

ids-advance :
    (entity updated_at : String) (ops : List QueuedOp)
    → op_ids (map (advance entity updated_at) ops) ≡ op_ids ops
unfolding op_ids advance
ids-advance entity updated_at [] = refl
ids-advance entity updated_at (op ∷ ops) =
    ap2_cons (advance_id entity updated_at op) (ids-advance entity updated_at ops)

ids-advance_all :
    (entity : String) (at : Option Json) (held : Option QueuedOp) (ops : List QueuedOp)
    → op_ids (pending_of held (advance_all entity at ops)) ≡ op_ids (pending_of held ops)
unfolding advance_all pending_of op_ids
ids-advance_all entity none held ops = refl
ids-advance_all entity (some null) held ops = refl
ids-advance_all entity (some (other value)) held ops = refl
ids-advance_all entity (some undefined) held ops = refl
ids-advance_all entity (some (text updated_at)) none ops = ids-advance entity updated_at ops
ids-advance_all entity (some (text updated_at)) (some op) ops =
    ap (λ ids. op.id ∷ ids) (ids-advance entity updated_at ops)

pub ids-advance_preconditions :
    (op : QueuedOp) (row : Body) (s : OutboxStore) → ids (advance_preconditions op row s) ≡ ids s
unfolding ids pending advance_preconditions
ids-advance_preconditions op row s = elim (Bool-cases (is_content_edit op.semantics)) [
  | inl b ↦
      rw (advance_preconditions, b)
        (ids-advance_all op.entity_id (lookup "updated_at" row) s.inflight s.ops)
  | inr b ↦ rw (advance_preconditions, b) refl
]
