-- ===== src/Dependencies/Tests.antt =====
-- Runs of `cyclePathIds`, and its theorems at an input.
use critical_path_api.Prelude.{
  ℕ, ◌≡◌, refl, List, [], ◌∷◌, some, arith, contains, lookup, insert, map,
}
use critical_path_api.Graph.{GraphEdge}
use critical_path_api.Dependencies.{
  DependencyEdge, cycle_path_ids, cycle_path, dependency_blocks, search, scan, climb, path_from,
  targets_of, target_count, first_search, add_target,
}
use critical_path_api.Dependencies.Loops.{Decides}
use critical_path_api.Dependencies.Client.{graph_cycle_path_ids}
use critical_path_api.Dependencies.Agree.{to_dependency, graph_cycle_path_ids-cycle_path_ids}
use critical_path_api.Dependencies.Paths.{is_edge, cycle_path_ids-Decides}

-- 1 blocks 2, and 2 blocks both 3 and 4.
abbrev chain : List DependencyEdge
chain =
    record { blocker_task_id = 1; blocked_task_id = 2 }
    ∷ record { blocker_task_id = 2; blocked_task_id = 4 }
    ∷ record { blocker_task_id = 2; blocked_task_id = 3 }
    ∷ []

abbrev drawn : List (GraphEdge ℕ)
drawn = record { id = "1->2"; from = 1; to = 2 } ∷ record { id = "2->3"; from = 2; to = 3 } ∷ []

chain_loop : cycle_path_ids chain 1 3 ≡ some (1 ∷ 2 ∷ 3 ∷ 1 ∷ [])
unfolding cycle_path_ids cycle_path dependency_blocks add_target search scan climb path_from
    targets_of target_count first_search lookup insert contains
chain_loop = refl

chain_open : cycle_path_ids chain 3 1 ≡ some []
unfolding cycle_path_ids cycle_path dependency_blocks add_target search scan climb path_from
    targets_of target_count first_search lookup insert contains
chain_open = refl

cycle_path_ids-Decides_example : Decides (is_edge chain) 1 3 (cycle_path_ids chain 1 3)
cycle_path_ids-Decides_example = cycle_path_ids-Decides chain 1 3 (omega arith)

graph_cycle_path_ids-cycle_path_ids_example :
    graph_cycle_path_ids drawn 1 3 ≡ cycle_path_ids (map to_dependency drawn) 1 3
graph_cycle_path_ids-cycle_path_ids_example = graph_cycle_path_ids-cycle_path_ids drawn 1 3
