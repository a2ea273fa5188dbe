-- ===== src/Graph/Order.antt =====
-- `topologicalOrder`: the loop from its first state, and what it leaves unplaced.
use critical_path_api.Prelude.{
  ℕ, suc, ◌≤◌, ◌<◌, ◌≡◌, ap, Bool, true, false, List, [], ◌∷◌, map, some, arith, Eq, ◌==◌,
  if◌then◌else◌, length, length-map, filter, contains, contains-count, count, Distinct,
  count-Distinct, Map,
}
use critical_path_api.Graph.{
  GraphEdge, GraphNode, node_id, Kahn, degree, first_kahn, adjacency, topological_order,
}
use critical_path_api.Graph.Degrees.{pending, pending-source, adjacency-IsAdjacency}
use critical_path_api.Graph.Relax.{length-ready, find_waiting, waiting_none}
use critical_path_api.Graph.Loop.{HasEdge, IsRanked, Inv, kahn-ends}

module _ {K : Type 0} ⦃e : Eq K⦄ where
  count-filter :
      (keep : K → Bool) (xs : List K) (v : K)
      → count (filter keep xs) v ≡ (if keep v then count xs v else 0)
  unfolding count filter
  count-filter keep [] v = ground arith
  count-filter keep (x ∷ xs) v = ground (arith, count-filter keep xs v, e.beq_iff x v)

module _ {K : Type 0} ⦃e : Eq K⦄ (nodes : List (GraphNode K)) (edges : List (GraphEdge K))
    (distinct : Distinct (map node_id nodes)) where
  abbrev pub ids : List K
  ids = map node_id nodes

  abbrev pub Edge : K → K → Type 0
  Edge = HasEdge ids distinct edges

  first-Inv :
      (m : Map K ℕ)
      → ((v : K) → degree m v ≡ pending ids [] edges v)
      → Inv ids distinct edges (first_kahn ids m)
  unfolding first_kahn count contains
  first-Inv m d = record {
    settled = record {
      degrees = λ v. omega (arith, d v);
      balance = λ v. ground (
        arith,
        count-filter (λ id. degree m id == 0) ids v,
        count-Distinct ids v distinct,
        contains-count ids v,
      );
      total = omega (arith, length-ready m ids);
    };
    ranked = λ u v edge m. cc;
  }

  -- The order that the code computes: it places each node at most once, and no other.
  pub record IsOrder (order : List K) : Type 0 where
    pub once : (v : K) → count order v ≡ (if contains order v then 1 else 0)
    pub known : (v : K) → contains order v ≡ true → contains ids v ≡ true
    pub ranked : IsRanked ids distinct edges order
    -- A node is left out only behind another that is.
    pub left :
        (v : K)
        → contains ids v ≡ true
        → contains order v ≡ false
        → (u : K) × Edge u v × (contains order u ≡ false)
    pub bounded : length order ≤ length nodes
    pub complete :
        length order ≡ length nodes → (v : K) → contains ids v ≡ true → contains order v ≡ true
    pub missing :
        length order < length nodes → (v : K) × (contains ids v ≡ true) × (contains order v ≡ false)

  end-IsOrder : (t : Kahn K) → t.queue ≡ [] → Inv ids distinct edges t → IsOrder t.order
  unfolding count
  end-IsOrder t q h =
      let empty = λ (v : K). ap (λ xs. count xs v) q in
      record {
        once = λ v. ground (arith, h.settled.balance v, empty v, contains-count t.order v);
        known = λ v m. ground (arith, h.settled.balance v, empty v, contains-count t.order v);
        ranked = h.ranked;
        left = λ v m n. pending-source ids t.order edges v (
            ground
              (arith, h.settled.balance v, h.settled.degrees v, empty v, contains-count t.order v));
        bounded = omega (arith, h.settled.total, length-map node_id nodes);
        complete = λ full v m. ground (
          arith,
          h.settled.balance v,
          empty v,
          contains-count t.order v,
          waiting_none t.indegree ids v,
          h.settled.total,
          length-map node_id nodes,
        );
        missing = λ short.
            let (v, m, d) =
              find_waiting t.indegree ids
                (omega (arith, h.settled.total, ap length q, length-map node_id nodes)) in
            (v, m, ground (arith, h.settled.balance v, empty v, contains-count t.order v));
      }

  -- Where node ids are distinct, `topologicalOrder` returns. Its order places each node at most
  -- once, and a node only behind all nodes with an edge into it; it leaves a node out only behind
  -- another that it leaves out, and it is as long as the list of nodes exactly if none is left out.
  pub topological_order-IsOrder :
      (order : List K) × (topological_order nodes edges ≡ some order) × IsOrder order
  unfolding topological_order
  topological_order-IsOrder =
      let a = adjacency ids edges in
      let adj = adjacency-IsAdjacency ids edges in
      let (t, k, q, inv) =
        kahn-ends ids distinct edges a (suc (length nodes)) (first_kahn ids a.indegree) adj
          (omega (arith, length-map node_id nodes)) (first-Inv a.indegree adj.degrees) in
      (t.order, k, end-IsOrder t q inv)
