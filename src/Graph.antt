-- ===== src/Graph.antt =====
-- web/src/lib/graph.ts: the dependency graph that a board is drawn as, and its order of tasks.
--
-- A node's id is a text that the code only compares, so the part below the types is about any type
-- with an equality test. `topologicalOrder` shifts its queue until it is empty: `kahn` does so on
-- fuel, one unit for each node and one for the last test. `remaining` is computed on ℕ, where the
-- code's number could fall below 0: `degree-pos` in Graph/Relax shows that it never does when
-- the nodes have distinct ids.
pub mod Degrees
pub mod Relax
pub mod Loop
pub mod Order
pub mod Cycles
mod Tests
use Prim.Native.String.{String}
use mathlib.Core.Option
use critical_path_api.Prelude.{
  ℕ, zero, suc, ◌+◌, ◌-◌, Bool, true, false, not, ◌||◌, List, [], ◌∷◌, ◌++◌, map, foldl, Option,
  none, some, Eq, ◌==◌, ltb, if◌then◌else◌, length, filter, contains, Map, lookup, insert,
}

pub record GraphEdge (K : Type 0) : Type 0 where
  pub id : String
  pub from : K
  pub to : K

-- The four kinds of node; only `id` is common.
pub data GraphNode (K : Type 0) : Type 0 where
  task : K → String → String → Bool → GraphNode K
  remote : K → String → String → Bool → GraphNode K
  placeholder : K → K → ℕ → GraphNode K
  hidden : K → K → ℕ → GraphNode K

abbrev pub node_id : {K : Type 0} → GraphNode K → K
node_id (task id title column_name is_done) = id
node_id (remote id title project_name is_done) = id
node_id (placeholder id host_task_id count) = id
node_id (hidden id host_task_id count) = id

pub record Adjacency (K : Type 0) : Type 0 where
  pub out : Map K (List K)
  pub indegree : Map K ℕ

-- The state of the loop of `topologicalOrder`.
pub record Kahn (K : Type 0) : Type 0 where
  pub indegree : Map K ℕ
  pub queue : List K
  pub order : List K

module _ {K : Type 0} ⦃e : Eq K⦄ where
  -- `map.has(k)`
  pub has {ℓ} : {V : Type ℓ} → Map K V → K → Bool
  has m k = elim (lookup k m) [ none ↦ false | some _ ↦ true ]

  -- `new Map(ids.map((id) => [id, v]))`
  pub constant_map {ℓ} : {V : Type ℓ} → V → List K → Map K V
  constant_map v = foldl (λ m id. insert id v m) []

  -- `indegree.get(id)!`, of a key that is there.
  pub degree : Map K ℕ → K → ℕ
  degree m k = elim (lookup k m) [ none ↦ 0 | some d ↦ d ]

  -- `out.get(id)!`, of a key that is there.
  pub out_of : Map K (List K) → K → List K
  out_of m k = elim (lookup k m) [ none ↦ [] | some ks ↦ ks ]

  pub add_edge : Adjacency K → GraphEdge K → Adjacency K
  add_edge a edge =
      if not (has a.indegree edge.from) || not (has a.indegree edge.to) then a else record {
        out = insert edge.from (out_of a.out edge.from ++ edge.to ∷ []) a.out;
        indegree = insert edge.to (degree a.indegree edge.to + 1) a.indegree;
      }

  pub adjacency : List K → List (GraphEdge K) → Adjacency K
  adjacency ids =
      foldl add_edge (record { out = constant_map [] ids; indegree = constant_map 0 ids })

  -- The inner loop's body: one edge out of the node that was placed.
  pub relax : Kahn K → K → Kahn K
  relax s next =
      let remaining = degree s.indegree next - 1 in
      record s {
        indegree = insert next remaining s.indegree;
        queue = if remaining == 0 then s.queue ++ next ∷ [] else s.queue;
      }

  pub kahn : ℕ → Map K (List K) → Kahn K → Option (List K)
  kahn zero out s = none
  kahn (suc fuel) out s = elim s.queue [
    | [] ↦ some s.order
    | id ∷ rest ↦
        kahn fuel out
          (foldl relax (record s { queue = rest; order = s.order ++ id ∷ [] }) (out_of out id))
  ]

  pub first_kahn : List K → Map K ℕ → Kahn K
  first_kahn ids indegree = record {
    indegree = indegree;
    queue = filter (λ id. degree indegree id == 0) ids;
    order = [];
  }

  pub topological_order : List (GraphNode K) → List (GraphEdge K) → Option (List K)
  unfolding first_kahn
  topological_order nodes edges =
      let ids = map node_id nodes in
      let a = adjacency ids edges in kahn (suc (length nodes)) a.out (first_kahn ids a.indegree)

  pub detect_cycle : List (GraphNode K) → List (GraphEdge K) → Option Bool
  detect_cycle nodes edges =
      Option.map (λ order. ltb (length order) (length nodes)) (topological_order nodes edges)

  -- The ids that the order does not place, as the list that the code makes a `Set` of.
  pub cycle_node_ids : List (GraphNode K) → List (GraphEdge K) → Option (List K)
  cycle_node_ids nodes edges =
      Option.map
        (λ placed. map node_id (filter (λ node. not (contains placed (node_id node))) nodes))
        (topological_order nodes edges)
