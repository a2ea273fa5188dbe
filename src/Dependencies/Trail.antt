-- ===== src/Dependencies/Trail.antt =====
-- The walk back over `predecessors`: the loop of `cyclePathIds` that rebuilds the path.
use mathlib.Core.List.{reverse-append, reverse-cons, append-nil, append_assoc}
use critical_path_api.Prelude.{
  ℕ, zero, suc, ◌≤◌, ◌<◌, ◌≡◌, ◌≢◌, refl, ap, true, Bool, List, [], ◌∷◌, ◌++◌, reverse, some, none,
  arith, length, contains, Map, lookup, insert, lookup-insert, nat_eq,
}
use critical_path_api.Dependencies.Loops.{Linked, Reach, here, step}
use critical_path_api.Dependencies.{targets_of, climb, path_from}

-- The test for an edge from `u` to `v`.
abbrev pub has_target : Map ℕ (List ℕ) → ℕ → ℕ → Bool
has_target blocks u v = contains (targets_of blocks u) v

abbrev pub HasEdge : Map ℕ (List ℕ) → ℕ → ℕ → Type 0
HasEdge blocks u v = has_target blocks u v ≡ true

module _ (blocks : Map ℕ (List ℕ)) (start : ℕ) where
  -- `n` steps back over `predecessors`, each along an edge, lead from a task to the start.
  pub data Trail (preds : Map ℕ ℕ) : ℕ → ℕ → Type 0 where
    root : Trail preds start zero
    hop :
        {u v n : ℕ}
        → v ≢ start
        → lookup v preds ≡ some u
        → HasEdge blocks u v
        → Trail preds u n
        → Trail preds v (suc n)

  -- The tasks after the start, in order.
  pub inner : {preds : Map ℕ ℕ} {v n : ℕ} → Trail preds v n → List ℕ
  inner root = []
  inner (hop {v = v} _ _ _ c) = inner c ++ v ∷ []

  pub back : {preds : Map ℕ ℕ} {v n : ℕ} → Trail preds v n → List ℕ
  back root = []
  back (hop {v = v} _ _ _ c) = v ∷ back c

  reverse-back : {preds : Map ℕ ℕ} {v n : ℕ} (c : Trail preds v n) → reverse (back c) ≡ inner c
  unfolding back inner
  reverse-back root = refl
  reverse-back (hop {v = v} _ _ _ c) = rw (reverse-cons v (back c), reverse-back c)

  pub Linked-inner :
      {preds : Map ℕ ℕ} {v n : ℕ} (c : Trail preds v n) (rest : List ℕ)
      → Linked (has_target blocks) (v ∷ rest)
      → Linked (has_target blocks) (start ∷ inner c ++ rest)
  unfolding inner
  Linked-inner root rest h = h
  Linked-inner (hop {v = v} _ _ e c) rest h =
      rw (append_assoc (inner c) (v ∷ []) rest) (Linked-inner c (v ∷ rest) (e, h))

  -- The loop ends after as many rounds as the trail has steps, and pushes the trail's tasks.
  pub climb-Trail :
      (goal fuel : ℕ) (preds : Map ℕ ℕ) {v n : ℕ} (c : Trail preds v n) (path : List ℕ)
      → n < fuel
      → climb start goal fuel preds v path ≡ some (path ++ back c)
  unfolding climb back
  climb-Trail goal zero preds c path h = absurd (omega arith)
  climb-Trail goal (suc fuel) preds root path h = ground (arith, append-nil path)
  climb-Trail goal (suc fuel) preds (hop {u} {v} ne l e c) path h = ground (
    arith,
    climb-Trail goal fuel preds c (path ++ v ∷ []) (omega arith),
    append_assoc path (v ∷ []) (back c),
  )

  -- A new entry under a key that is not there leaves every trail as it is.
  pub Trail-insert :
      {preds : Map ℕ ℕ} {v n : ℕ} (b current : ℕ)
      → lookup b preds ≡ none
      → Trail preds v n
      → Trail (insert b current preds) v n
  Trail-insert b current h root = root
  Trail-insert {preds} b current h (hop {u} {v} ne l e c) =
      hop ne (ground (arith, lookup-insert b v current preds)) e (Trail-insert b current h c)

  -- The returned path, once the search has met the blocker from `v`.
  pub path_from-Trail :
      (goal : ℕ) (preds : Map ℕ ℕ) {v n : ℕ} (c : Trail preds v n)
      → n ≤ length preds
      → path_from start goal preds v ≡ some (start ∷ inner c ++ goal ∷ start ∷ [])
  unfolding path_from
  path_from-Trail goal preds c h =
      rw
        (
          climb-Trail goal (suc (length preds)) preds c (goal ∷ []) (omega arith),
          path_from,
          reverse-append (goal ∷ back c) (start ∷ []),
          reverse-cons goal (back c),
          reverse-back c,
        )
        (ap (λ xs. some (start ∷ xs)) (append_assoc (inner c) (goal ∷ []) (start ∷ [])))

  -- A trail is a walk, seen from its end.
  pub Trail-Reach :
      {preds : Map ℕ ℕ} {v n : ℕ} → Trail preds v n → Reach (has_target blocks) start v
  Trail-Reach root = here
  Trail-Reach (hop _ _ e c) = step (Trail-Reach c) e
