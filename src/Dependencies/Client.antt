-- ===== src/Dependencies/Client.antt =====
-- `cyclePathIds` of web/src/lib/graph.ts: the search of the web client for the loop that it draws.
-- It is written apart from the search of the server, which it copies; the fuel is that of the
-- server's search.
use critical_path_api.Graph.{GraphEdge}
use critical_path_api.Dependencies.{target_count}
use critical_path_api.Prelude.{
  nat_eq, ℕ, zero, suc, true, false, List, [], ◌∷◌, ◌++◌, reverse, foldl, Option, none, some, ◌==◌,
  length, contains, Map, lookup, insert,
}

-- `predecessors`, `visited`, and the queue from the index of the outer loop on.
pub record GraphSearch : Type 0 where
  pub predecessors : Map ℕ ℕ
  pub visited : List ℕ
  pub queue : List ℕ

-- The inner loop ends, or the function returns from it.
pub data GraphScanned : Type 0 where
  scanned : GraphSearch → GraphScanned
  returned : Option (List ℕ) → GraphScanned

-- `targets.push(edge.to)`, or `out.set(edge.from, [edge.to])`
unfoldable pub draw_edge : Map ℕ (List ℕ) → GraphEdge ℕ → Map ℕ (List ℕ)
draw_edge out edge = elim (lookup edge.from out) [
  | some targets ↦ insert edge.from (targets ++ edge.to ∷ []) out
  | none ↦ insert edge.from (edge.to ∷ []) out
]

unfoldable pub graph_out : List (GraphEdge ℕ) → Map ℕ (List ℕ)
graph_out edges = foldl draw_edge [] edges

-- `out.get(current) ?? []`
unfoldable pub drawn_targets : Map ℕ (List ℕ) → ℕ → List ℕ
drawn_targets out current = elim (lookup current out) [ none ↦ [] | some targets ↦ targets ]

module _ (blocked_task_id blocker_task_id : ℕ) where
  -- `for (let node = current; node !== blockedTaskId; node = predecessors.get(node)!) path.push(node)`
  unfoldable pub graph_climb : ℕ → Map ℕ ℕ → ℕ → List ℕ → Option (List ℕ)
  graph_climb zero predecessors node path = none
  graph_climb (suc fuel) predecessors node path = elim (node == blocked_task_id) [
    | true ↦ some path
    | false ↦ elim (lookup node predecessors) [
      | none ↦ none
      | some before ↦ graph_climb fuel predecessors before (path ++ node ∷ [])
    ]
  ]

  -- The path that is returned: climbed, closed by the blocked task, reversed, and closed again.
  unfoldable pub graph_path : Map ℕ ℕ → ℕ → Option (List ℕ)
  graph_path predecessors current =
      elim (graph_climb (suc (length predecessors)) predecessors current (blocker_task_id ∷ [])) [
        | none ↦ none
        | some path ↦ some (reverse (path ++ blocked_task_id ∷ []) ++ blocked_task_id ∷ [])
      ]

  -- The inner loop over the targets of `current`.
  unfoldable pub graph_scan : ℕ → GraphSearch → List ℕ → GraphScanned
  graph_scan current s [] = scanned s
  graph_scan current s (next ∷ rest) = elim (contains s.visited next) [
    | true ↦ graph_scan current s rest
    | false ↦ elim (next == blocker_task_id) [
      | false ↦
          graph_scan current
            (record {
              predecessors = insert next current s.predecessors;
              visited = next ∷ s.visited;
              queue = s.queue ++ next ∷ [];
            })
            rest
      | true ↦ returned (graph_path (insert next current s.predecessors) current)
    ]
  ]

  -- The outer loop; the empty path is returned behind it.
  unfoldable pub graph_search : ℕ → Map ℕ (List ℕ) → GraphSearch → Option (List ℕ)
  graph_search zero out s = none
  graph_search (suc fuel) out s = elim s.queue [
    | [] ↦ some []
    | current ∷ rest ↦
        elim (graph_scan current (record s { queue = rest }) (drawn_targets out current)) [
          | scanned s' ↦ graph_search fuel out s'
          | returned path ↦ path
        ]
  ]

unfoldable pub graph_cycle_path_ids : List (GraphEdge ℕ) → ℕ → ℕ → Option (List ℕ)
graph_cycle_path_ids edges blocked blocker =
    let out = graph_out edges in
    graph_search blocked blocker (suc (suc (target_count out))) out
      (record { predecessors = []; visited = blocked ∷ []; queue = blocked ∷ [] })
