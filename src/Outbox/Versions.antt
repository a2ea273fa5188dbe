-- ===== src/Outbox/Versions.antt =====
-- Two edits of a card that wait become one, in the place of the first.
use Prim.Native.String.{String}
use critical_path_api.Prelude.{
  ℕ, ◌≡◌, refl, ap, ◌∙◌, true, ◌&&◌, [], ◌∷◌, Option, none, some, arith, if◌then◌else◌, find,
  Bool-cases, inl, inr, subst, string_eq, Unique, lookup, insert, lookup-insert, not, List, filter,
  Bool, ◌==◌, ==_iff, nat_eq,
}
use critical_path_api.Outbox.{Json, Body, ConflictContext, QueuedOp, OutboxStore, is_content_edit}
use critical_path_api.Outbox.Ids.{ids-replace}
use critical_path_api.Outbox.Queue.{
  spread, field, merge, merge_held, merge_into, edits, has_conflict, coalesce, replace, enqueue,
  op_ids,
}

-- The newer value, or the older where there is none.
abbrev pub either_value : Option Json → Option Json → Option Json
either_value none older = older
either_value (some newer) older = some newer

lookup-spread :
    (key : String) (older newer : Body)
    → Unique newer
    → lookup key (spread older newer) ≡ either_value (lookup key newer) (lookup key older)
unfolding spread lookup
lookup-spread key older [] u = refl
lookup-spread key older ((k, v) ∷ newer) u =
    lookup-spread key (insert k v older) newer u.1
    ∙ rw (lookup-insert k key v older) (elim (Bool-cases (string_eq.beq k key)) [
      | inl b ↦
          let none_left : lookup key newer ≡ none =
            subst (λ j. lookup j newer ≡ none) ((string_eq.beq_iff k key).0 b) u.0 in
          rw (b, none_left) refl
      | inr b ↦ rw (b) refl
    ])

lookup-merge :
    (existing op : QueuedOp) (held : ConflictContext) (key : String)
    → Unique op.request.body
    → lookup key (merge existing held op).request.body ≡ (
        if string_eq.beq "expected_updated_at" key
        then some (field "expected_updated_at" existing.request.body)
        else either_value (lookup key op.request.body) (lookup key existing.request.body))
unfolding merge
lookup-merge existing op held key u =
    lookup-insert "expected_updated_at" key (field "expected_updated_at" existing.request.body)
      (spread existing.request.body op.request.body)
    ∙ ap
        (λ o.
          if string_eq.beq "expected_updated_at" key
          then some (field "expected_updated_at" existing.request.body)
          else o)
        (lookup-spread key existing.request.body op.request.body u)

find-holds :
    (test : QueuedOp → Bool) (ops : List QueuedOp) (op : QueuedOp)
    → find test ops ≡ some op
    → test op ≡ true
unfolding find
find-holds test [] op h = ground arith
find-holds test (x ∷ ops) op h = ground (arith, find-holds test ops op)

-- What stands in for the op that was found is found in its place.
find-replace :
    (test : QueuedOp → Bool) (merged op : QueuedOp) (ops : List QueuedOp)
    → find test ops ≡ some op
    → merged.id ≡ op.id
    → test merged ≡ true
    → find test (replace merged ops) ≡ some merged
unfolding find replace
find-replace test merged op [] h same m = ground arith
find-replace test merged op (x ∷ ops) h same m =
    let rest = find-replace test merged op ops in
    elim (Bool-cases (x.id == merged.id)) [
      | inl b ↦ rw (b, m) refl
      | inr b ↦ rw (b) (ground (arith, rest, b, same, ==_iff x.id merged.id))
    ]

others-replace :
    (merged : QueuedOp) (id : ℕ) (ops : List QueuedOp)
    → merged.id ≡ id
    → filter (λ q. not (q.id == id)) (replace merged ops) ≡ filter (λ q. not (q.id == id)) ops
unfolding filter replace
others-replace merged id [] h = refl
others-replace merged id (x ∷ ops) h = ground (
  arith,
  others-replace merged id ops h,
  ==_iff x.id merged.id,
  ==_iff merged.id id,
  ==_iff x.id id,
)

-- Where an edit with a precondition is queued behind one of the same card that still waits and
-- was found first, the two become one, which keeps the id and the place of the first and is found
-- in its stead; no op is added, and every other op stays as it is. Each field of the one has the
-- value of the newer edit, undefined included, or of the older where the newer has none, but the
-- precondition is the older one, where fields have one value in a body.
pub enqueue-merge :
    (now : ℕ) (op existing : QueuedOp) (held : ConflictContext) (s : OutboxStore)
    → is_content_edit op.semantics ≡ true
    → has_conflict op ≡ true
    → find (edits op.entity_id) s.ops ≡ some existing
    → existing.conflict ≡ some held
    → Unique op.request.body
    → let queued = (enqueue now op s).ops in
      (merged : QueuedOp) × (find (edits op.entity_id) queued ≡ some merged)
      × (merged.id ≡ existing.id)
      × (op_ids queued ≡ op_ids s.ops)
      × (filter (λ q. not (q.id == existing.id)) queued
          ≡ filter (λ q. not (q.id == existing.id)) s.ops)
      × ((key : String)
          → lookup key merged.request.body ≡ (
              if string_eq.beq "expected_updated_at" key
              then some (field "expected_updated_at" existing.request.body)
              else either_value (lookup key op.request.body) (lookup key existing.request.body)))
unfolding enqueue coalesce merge_into merge merge_held edits
enqueue-merge now op existing held s e c f g u =
    let guarded : (is_content_edit op.semantics && has_conflict op) ≡ true = ground (arith, e, c) in
    let m : QueuedOp = merge existing held op in
    let merged : coalesce op s.ops ≡ some m =
      rw (coalesce, guarded) (ap (merge_into op) f ∙ ap (merge_held op existing) g) in
    let queued : (enqueue now op s).ops ≡ replace m s.ops = rw (enqueue, merged) refl in
    (
      m,
      ap (find (edits op.entity_id)) queued
          ∙ find-replace (edits op.entity_id) m existing s.ops f refl
              (find-holds (edits op.entity_id) s.ops existing f),
      refl,
      ap op_ids queued ∙ ids-replace m s.ops,
      ap (filter (λ q. not (q.id == existing.id))) queued ∙ others-replace m existing.id s.ops refl,
      λ key. lookup-merge existing op held key u,
    )
