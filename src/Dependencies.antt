-- ===== src/Dependencies.antt =====
-- api/src/services/dependencies.ts: the path that shows a user the loop which a new dependency would
-- close. Client holds the search of web/src/lib/graph.ts, a copy kept by hand.
--
-- Tasks are named by uuids, which the code only compares: they are numbers here. `blocks` is a
-- JavaScript `Map`. The queue of the search is kept from the index `i` on, so that its head is
-- `queue[i]`. `climb` runs on fuel, and gives `none` when it runs out or where `predecessors.get`
-- finds nothing, in which case the code would not return.
pub mod Scan
pub mod Loops
pub mod Trail
pub mod Correct
pub mod Paths
pub mod Client
pub mod Agree
mod Tests
use critical_path_api.Prelude.{
  nat_eq, ℕ, zero, suc, ◌+◌, true, false, List, [], ◌∷◌, ◌++◌, reverse, foldl, Option, none, some,
  ◌==◌, length, contains, Map, lookup, insert,
}

-- The edge says that the blocker comes before the blocked task.
pub record DependencyEdge : Type 0 where
  pub blocker_task_id : ℕ
  pub blocked_task_id : ℕ

-- One turn of the loop that builds the map of targets.
pub add_target : ℕ → ℕ → Map ℕ (List ℕ) → Map ℕ (List ℕ)
add_target from to blocks = elim (lookup from blocks) [
  | none ↦ insert from (to ∷ []) blocks
  | some targets ↦ insert from (targets ++ to ∷ []) blocks
]

-- `blocks.get(current) ?? []`
pub targets_of : Map ℕ (List ℕ) → ℕ → List ℕ
targets_of blocks current = elim (lookup current blocks) [ none ↦ [] | some targets ↦ targets ]

pub record Search : Type 0 where
  pub predecessors : Map ℕ ℕ
  pub visited : List ℕ
  pub queue : List ℕ

-- What the inner loop ends with: a state, or the blocker and the task that it was reached from.
pub data Scanned : Type 0 where
  going : Search → Scanned
  found : Search → Scanned

module _ (blocked_task_id blocker_task_id : ℕ) where
  -- `visited.add(blocked); predecessors.set(blocked, current)`
  pub visit : Search → ℕ → ℕ → Search
  visit s current blocked = record s {
    predecessors = insert blocked current s.predecessors;
    visited = blocked ∷ s.visited;
  }

  -- The inner loop over the targets of `current`.
  pub scan : ℕ → Search → List ℕ → Scanned
  unfolding visit
  scan current s [] = going s
  scan current s (blocked ∷ rest) = elim (contains s.visited blocked) [
    | true ↦ scan current s rest
    | false ↦
        let s' = visit s current blocked in
        elim (blocked == blocker_task_id) [
          | true ↦ found s'
          | false ↦ scan current (record s' { queue = s'.queue ++ blocked ∷ [] }) rest
        ]
  ]

  -- `for (let node = current; node !== blockedTaskId; node = predecessors.get(node)) path.push(node)`
  pub climb : ℕ → Map ℕ ℕ → ℕ → List ℕ → Option (List ℕ)
  climb zero predecessors node path = none
  climb (suc fuel) predecessors node path = elim (node == blocked_task_id) [
    | true ↦ some path
    | false ↦ elim (lookup node predecessors) [
      | none ↦ none
      | some before ↦ climb fuel predecessors before (path ++ node ∷ [])
    ]
  ]

  -- The path as it is returned once the blocker has been reached from `current`.
  pub path_from : Map ℕ ℕ → ℕ → Option (List ℕ)
  path_from predecessors current =
      elim (climb (suc (length predecessors)) predecessors current (blocker_task_id ∷ [])) [
        | none ↦ none
        | some path ↦ some (reverse (path ++ blocked_task_id ∷ []) ++ blocked_task_id ∷ [])
      ]

  -- The outer loop. The code returns the empty path once the queue is used up.
  pub search : ℕ → Map ℕ (List ℕ) → Search → Option (List ℕ)
  search zero blocks s = none
  search (suc fuel) blocks s = elim s.queue [
    | [] ↦ some []
    | current ∷ rest ↦ elim (scan current (record s { queue = rest }) (targets_of blocks current)) [
      | going s' ↦ search fuel blocks s'
      | found s' ↦ path_from s'.predecessors current
    ]
  ]

-- How many targets the map lists: no task but the first is queued except as one of these.
pub target_count : Map ℕ (List ℕ) → ℕ
target_count [] = 0
target_count ((_, targets) ∷ blocks) = length targets + target_count blocks

pub first_search : ℕ → Search
first_search blocked = record { predecessors = []; visited = blocked ∷ []; queue = blocked ∷ [] }

pub cycle_path : Map ℕ (List ℕ) → ℕ → ℕ → Option (List ℕ)
cycle_path blocks blocked blocker =
    search blocked blocker (suc (suc (target_count blocks))) blocks (first_search blocked)

pub dependency_blocks : List DependencyEdge → Map ℕ (List ℕ)
dependency_blocks =
    foldl (λ blocks edge. add_target edge.blocker_task_id edge.blocked_task_id blocks) []

-- `cyclePathIds` of the server.
pub cycle_path_ids : List DependencyEdge → ℕ → ℕ → Option (List ℕ)
cycle_path_ids edges = cycle_path (dependency_blocks edges)
