-- ===== src/Graph/Tests.antt =====
-- Runs of the graph's order, and its theorems at an input.
use critical_path_api.Prelude.{
  ℕ, ◌≡◌, refl, ◌⊎◌, ◌↔◌, true, false, List, [], ◌∷◌, map, some, nat_eq, contains, filter, lookup,
  insert, Distinct,
}
use critical_path_api.Graph.{
  GraphNode, GraphEdge, task, node_id, topological_order, detect_cycle, cycle_node_ids, adjacency,
  add_edge, kahn, relax, first_kahn, has, degree, out_of, constant_map,
}
use critical_path_api.Graph.Order.{IsOrder, topological_order-IsOrder}
use critical_path_api.Graph.Cycles.{
  GraphWalk, IsBehindCycle, detect_cycle-decides, cycle_node_ids-behind,
}

abbrev node : ℕ → GraphNode ℕ
node id = task id "title" "column" false

abbrev edge : ℕ → ℕ → GraphEdge ℕ
edge a b = record { id = ""; from = a; to = b }

-- 1 → 2 → 3, a loop between 4 and 5, and 6 behind it.
abbrev nodes : List (GraphNode ℕ)
nodes = node 3 ∷ node 1 ∷ node 2 ∷ node 4 ∷ node 5 ∷ node 6 ∷ []

abbrev edges : List (GraphEdge ℕ)
edges = edge 1 2 ∷ edge 2 3 ∷ edge 4 5 ∷ edge 5 4 ∷ edge 5 6 ∷ edge 9 1 ∷ []

nodes-Distinct : Distinct (map node_id nodes)
unfolding contains
nodes-Distinct = (refl, (refl, (refl, (refl, (refl, (refl, tt))))))

order_run : topological_order nodes edges ≡ some (1 ∷ 2 ∷ 3 ∷ [])
unfolding topological_order adjacency add_edge kahn relax first_kahn has degree out_of constant_map
    lookup insert filter contains
order_run = refl

cycle_run : cycle_node_ids nodes edges ≡ some (4 ∷ 5 ∷ 6 ∷ [])
unfolding cycle_node_ids topological_order adjacency add_edge kahn relax first_kahn has degree
    out_of constant_map lookup insert filter contains
cycle_run = refl

topological_order-IsOrder_example :
    (order : List ℕ) × (topological_order nodes edges ≡ some order)
    × IsOrder nodes edges nodes-Distinct order
topological_order-IsOrder_example = topological_order-IsOrder nodes edges nodes-Distinct

detect_cycle-decides_example :
    ((detect_cycle nodes edges ≡ some true) × (v : ℕ) × GraphWalk nodes edges nodes-Distinct v v)
    ⊎ ((detect_cycle nodes edges ≡ some false)
        × ((v : ℕ) → ¬ GraphWalk nodes edges nodes-Distinct v v))
detect_cycle-decides_example = detect_cycle-decides nodes edges nodes-Distinct

cycle_node_ids-behind_example :
    (found : List ℕ) × (cycle_node_ids nodes edges ≡ some found)
    × ((v : ℕ) → (contains found v ≡ true) ↔ IsBehindCycle nodes edges nodes-Distinct v)
cycle_node_ids-behind_example = cycle_node_ids-behind nodes edges nodes-Distinct
