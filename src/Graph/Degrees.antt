-- ===== src/Graph/Degrees.antt =====
-- `adjacency` of web/src/lib/graph.ts: which edges the two maps count.
use critical_path_api.Prelude.{
  ℕ, ◌+◌, ◌<◌, ◌≡◌, refl, ◌∙◌, inl, inr, Bool, true, false, not, ◌&&◌, ◌||◌, List, [], ◌∷◌, ◌++◌,
  foldl, arith, Eq, if◌then◌else◌, Bool-cases, contains, contains-append, count, count-append, Map,
  lookup, insert, lookup-insert,
}
use critical_path_api.Graph.{
  GraphEdge, Adjacency, has, constant_map, degree, out_of, add_edge, adjacency,
}

module _ {K : Type 0} ⦃e : Eq K⦄ where
  pub has-insert {ℓ} :
      {V : Type ℓ} (k : K) (v : V) (m : Map K V) (j : K)
      → has (insert k v m) j ≡ (e.beq k j || has m j)
  unfolding has
  has-insert k v m j = ground (arith, lookup-insert k j v m)

  pub degree-insert :
      (k : K) (d : ℕ) (m : Map K ℕ) (j : K)
      → degree (insert k d m) j ≡ (if e.beq k j then d else degree m j)
  unfolding degree
  degree-insert k d m j = ground (arith, lookup-insert k j d m)

  pub out_of-insert :
      (k : K) (ks : List K) (m : Map K (List K)) (j : K)
      → out_of (insert k ks m) j ≡ (if e.beq k j then ks else out_of m j)
  unfolding out_of
  out_of-insert k ks m j = elim (Bool-cases (e.beq k j)) [
    | inl h ↦ rw (lookup-insert k j ks m, out_of, h)
    | inr h ↦ rw (lookup-insert k j ks m, out_of, h)
  ]

  has-fold {ℓ} :
      {V : Type ℓ} (v : V) (ids : List K) (m : Map K V) (k : K)
      → has (foldl (λ m id. insert id v m) m ids) k ≡ (has m k || contains ids k)
  unfolding contains
  has-fold v [] m k = ground arith
  has-fold v (id ∷ ids) m k = ground (arith, has-fold v ids (insert id v m) k, has-insert id v m k)

  has-constant_map {ℓ} :
      {V : Type ℓ} (v : V) (ids : List K) (k : K) → has (constant_map v ids) k ≡ contains ids k
  unfolding constant_map has lookup
  has-constant_map v ids k = has-fold v ids [] k

  degree-fold :
      (ids : List K) (m : Map K ℕ) (k : K)
      → degree m k ≡ 0
      → degree (foldl (λ m id. insert id 0 m) m ids) k ≡ 0
  degree-fold [] m k h = h
  degree-fold (id ∷ ids) m k h =
      degree-fold ids (insert id 0 m) k (ground (arith, degree-insert id 0 m k))

  out_of-fold :
      (ids : List K) (m : Map K (List K)) (k : K)
      → out_of m k ≡ []
      → out_of (foldl (λ m id. insert id [] m) m ids) k ≡ []
  out_of-fold [] m k h = h
  out_of-fold (id ∷ ids) m k h =
      out_of-fold ids (insert id [] m) k (ground (arith, out_of-insert id [] m k))

module _ {K : Type 0} ⦃e : Eq K⦄ where
  pub degree-constant_map : (ids : List K) (k : K) → degree (constant_map 0 ids) k ≡ 0
  unfolding constant_map degree lookup
  degree-constant_map ids k = degree-fold ids [] k refl

  out_of-constant_map :
      (ids : List K) (u v : K) → count (out_of (constant_map {V = List K} [] ids) u) v ≡ 0
  unfolding constant_map out_of lookup count
  out_of-constant_map ids u v = rw (out_of-fold ids [] u refl)

-- The edges that `adjacency` keeps: both ends are nodes.
module _ {K : Type 0} ⦃e : Eq K⦄ (ids : List K) where
  abbrev pub is_valid : GraphEdge K → Bool
  is_valid edge = contains ids edge.from && contains ids edge.to

  -- The number of kept edges from `u` to `v`.
  pub edges_between : List (GraphEdge K) → K → K → ℕ
  edges_between [] u v = 0
  edges_between (edge ∷ edges) u v =
      (if is_valid edge && (e.beq edge.from u && e.beq edge.to v) then 1 else 0)
      + edges_between edges u v

  -- The number of kept edges into `v` from nodes that are not placed.
  pub pending : List K → List (GraphEdge K) → K → ℕ
  pending placed [] v = 0
  pending placed (edge ∷ edges) v =
      (if is_valid edge && (e.beq edge.to v && not (contains placed edge.from)) then 1 else 0)
      + pending placed edges v

  -- To place `u` settles its edges.
  pub pending-place :
      (placed : List K) (edges : List (GraphEdge K)) (u v : K)
      → contains placed u ≡ false
      → pending placed edges v ≡ pending (placed ++ u ∷ []) edges v + edges_between edges u v
  unfolding pending edges_between contains
  pending-place placed [] u v h = omega arith
  pending-place placed (edge ∷ edges) u v h = ground (
    arith,
    pending-place placed edges u v,
    contains-append placed (u ∷ []) edge.from,
    e.beq_iff u edge.from,
    e.beq_iff edge.from u,
  )

  -- Both ends of a kept edge are nodes.
  pub edges_between-valid :
      (edges : List (GraphEdge K)) (u v : K)
      → 0 < edges_between edges u v
      → (contains ids u ≡ true) × (contains ids v ≡ true)
  unfolding edges_between
  edges_between-valid [] u v h = absurd (omega arith)
  edges_between-valid (edge ∷ edges) u v h =
      ground (arith, edges_between-valid edges u v, e.beq_iff edge.from u, e.beq_iff edge.to v)

  -- An unsettled edge comes from a node that is not placed.
  pub pending-source :
      (placed : List K) (edges : List (GraphEdge K)) (v : K)
      → 0 < pending placed edges v
      → (u : K) × (0 < edges_between edges u v) × (contains placed u ≡ false)
  unfolding edges_between pending
  pending-source placed [] v h = absurd (omega arith)
  pending-source placed (edge ∷ edges) v h =
      elim (Bool-cases (is_valid edge && (e.beq edge.to v && not (contains placed edge.from)))) [
        | inl here ↦ (edge.from, ground (arith, e.beq_iff edge.from edge.from), ground arith)
        | inr there ↦
            let (u, edge_uv, free) = pending-source placed edges v (ground arith) in
            (u, omega arith, free)
      ]

  pub record IsAdjacency (edges : List (GraphEdge K)) (a : Adjacency K) : Type 0 where
    pub known : (k : K) → has a.indegree k ≡ contains ids k
    pub degrees : (v : K) → degree a.indegree v ≡ pending [] edges v
    pub outs : (u v : K) → count (out_of a.out u) v ≡ edges_between edges u v

  add_edge-known :
      (a : Adjacency K) (edge : GraphEdge K)
      → ((k : K) → has a.indegree k ≡ contains ids k)
      → (k : K) → has (add_edge a edge).indegree k ≡ contains ids k
  unfolding add_edge
  add_edge-known a edge h k = ground (
    arith,
    h k,
    h edge.to,
    h edge.from,
    e.beq_iff edge.to k,
    has-insert edge.to (degree a.indegree edge.to + 1) a.indegree k,
  )

  add_edge-degree :
      (a : Adjacency K) (edge : GraphEdge K)
      → ((k : K) → has a.indegree k ≡ contains ids k)
      → (v : K)
      → degree (add_edge a edge).indegree v
        ≡ degree a.indegree v + (if is_valid edge && e.beq edge.to v then 1 else 0)
  unfolding add_edge
  add_edge-degree a edge h v = ground (
    arith,
    h edge.to,
    h edge.from,
    e.beq_iff edge.to v,
    degree-insert edge.to (degree a.indegree edge.to + 1) a.indegree v,
  )

  add_edge-out :
      (a : Adjacency K) (edge : GraphEdge K)
      → ((k : K) → has a.indegree k ≡ contains ids k)
      → (u v : K)
      → count (out_of (add_edge a edge).out u) v
        ≡ count (out_of a.out u) v
          + (if is_valid edge && (e.beq edge.from u && e.beq edge.to v) then 1 else 0)
  unfolding add_edge count
  add_edge-out a edge h u v = ground (
    arith,
    h edge.to,
    h edge.from,
    e.beq_iff edge.from u,
    out_of-insert edge.from (out_of a.out edge.from ++ edge.to ∷ []) a.out u,
    count-append (out_of a.out edge.from) (edge.to ∷ []) v,
  )

  fold-known :
      (a : Adjacency K) (edges : List (GraphEdge K))
      → ((k : K) → has a.indegree k ≡ contains ids k)
      → (k : K) → has (foldl add_edge a edges).indegree k ≡ contains ids k
  fold-known a [] h k = h k
  fold-known a (edge ∷ edges) h k = fold-known (add_edge a edge) edges (add_edge-known a edge h) k

  fold-degree :
      (a : Adjacency K) (edges : List (GraphEdge K))
      → ((k : K) → has a.indegree k ≡ contains ids k)
      → (v : K)
      → degree (foldl add_edge a edges).indegree v ≡ degree a.indegree v + pending [] edges v
  unfolding pending contains
  fold-degree a [] h v = omega arith
  fold-degree a (edge ∷ edges) h v = ground (
    arith,
    fold-degree (add_edge a edge) edges (add_edge-known a edge h) v,
    add_edge-degree a edge h v,
  )

  fold-out :
      (a : Adjacency K) (edges : List (GraphEdge K))
      → ((k : K) → has a.indegree k ≡ contains ids k)
      → (u v : K)
      → count (out_of (foldl add_edge a edges).out u) v
        ≡ count (out_of a.out u) v + edges_between edges u v
  unfolding edges_between
  fold-out a [] h u v = omega arith
  fold-out a (edge ∷ edges) h u v = ground (
    arith,
    fold-out (add_edge a edge) edges (add_edge-known a edge h) u v,
    add_edge-out a edge h u v,
  )

  -- The two maps count the kept edges: into a node, and from one node to another.
  pub adjacency-IsAdjacency : (edges : List (GraphEdge K)) → IsAdjacency edges (adjacency ids edges)
  unfolding adjacency constant_map
  adjacency-IsAdjacency edges =
      let start : Adjacency K = record {
        out = constant_map [] ids;
        indegree = constant_map 0 ids;
      } in
      record {
        known = fold-known start edges (has-constant_map 0 ids);
        degrees = λ v.
            fold-degree start edges (has-constant_map 0 ids) v
            ∙ omega (arith, degree-constant_map ids v);
        outs = λ u v.
            fold-out start edges (has-constant_map 0 ids) u v
            ∙ omega (arith, out_of-constant_map ids u v);
      }
