-- ===== src/Outbox/Stored.antt =====
-- What the read of the stored queue does to the work that waits.
use critical_path_api.Prelude.{
  ℕ, ◌≡◌, refl, Bool, true, not, ◌||◌, List, Option, none, some, arith, if_case, ◌==◌, ==_iff,
  length, contains, contains-filter, nat_eq,
}
use critical_path_api.Outbox.{QueuedOp, OutboxStore, pending, pending_of}
use critical_path_api.Outbox.Queue.{op_ids}
use critical_path_api.Outbox.Hydrate.{start_drain, start_hydrate, unclaimed, take_stored}
use critical_path_api.Outbox.Ids.{ids, op_ids-filter}

pub ids-start_drain : (s : OutboxStore) → ids (start_drain s) ≡ ids s
unfolding start_drain ids pending
ids-start_drain s =
    if_case (λ (t : OutboxStore). ids t ≡ ids s) (length s.ops == 0) _ _ (λ b. refl) (λ b. refl)

pub issues-start_drain : (s : OutboxStore) → (start_drain s).issues ≡ s.issues
unfolding start_drain
issues-start_drain s =
    if_case (λ (t : OutboxStore). t.issues ≡ s.issues) (length s.ops == 0) _ _ (λ b. refl)
      (λ b. refl)

pub ids-start_hydrate : (has_user : Bool) (s : OutboxStore) → ids (start_hydrate has_user s) ≡ ids s
unfolding start_hydrate ids pending
ids-start_hydrate has_user s =
    if_case (λ (t : OutboxStore). ids t ≡ ids s) (not has_user || s.hydrated) _ _ (λ b. refl)
      (λ b. refl)

-- An op that was stored waits after the read, or is the one on the wire.
contains-unclaimed :
    (held : Option QueuedOp) (stored : List QueuedOp) (id : ℕ)
    → contains (op_ids stored) id ≡ true
    → contains (op_ids (pending_of held (unclaimed held stored))) id ≡ true
unfolding unclaimed pending_of op_ids contains
contains-unclaimed none stored id h = h
contains-unclaimed (some op) stored id h = ground (
  arith,
  op_ids-filter (λ queued. not (queued == op.id)) stored,
  contains-filter (λ queued. not (queued == op.id)) (op_ids stored) id,
  h,
  ==_iff op.id id,
  ==_iff id op.id,
)

pub contains-take_stored :
    (stored : List QueuedOp) (s : OutboxStore) (id : ℕ)
    → contains (op_ids stored) id ≡ true
    → contains (ids (take_stored stored s)) id ≡ true
unfolding take_stored ids pending
contains-take_stored stored s id h = contains-unclaimed s.inflight stored id h
