-- ===== src/Graph/Cycles.antt =====
-- `detectCycle` and `cycleNodeIds` against closed walks.
use critical_path_api.Prelude.{
  ℕ, zero, suc, ◌+◌, ◌≤◌, ◌<◌, ◌≡◌, refl, subst, ◌⊎◌, ◌↔◌, inl, inr, true, false, not, ◌&&◌, List,
  [], ◌∷◌, map, some, arith, Eq, ltb, if◌then◌else◌, Bool-cases, length, filter, contains, Distinct,
}
use critical_path_api.Graph.{GraphEdge, GraphNode, node_id, detect_cycle, cycle_node_ids}
use critical_path_api.Graph.Loop.{IsRanked, HasEdge-valid, position}
use critical_path_api.Graph.Order.{IsOrder, topological_order-IsOrder, ids, Edge}

module _ {K : Type 0} ⦃e : Eq K⦄ where
  -- The elements of a list that are not in `seen`.
  room : List K → List K → ℕ
  room seen [] = 0
  room seen (v ∷ vs) = (if contains seen v then 0 else 1) + room seen vs

  room-cons :
      (seen : List K) (x : K) (vs : List K)
      → contains seen x ≡ false
      → room (x ∷ seen) vs + (if contains vs x then 1 else 0) ≤ room seen vs
  unfolding room contains
  room-cons seen x [] h = omega arith
  room-cons seen x (v ∷ vs) h = ground (arith, room-cons seen x vs h, e.beq_iff x v, e.beq_iff v x)

  room-lt :
      (seen : List K) (x : K) (vs : List K)
      → contains seen x ≡ false
      → contains vs x ≡ true
      → room (x ∷ seen) vs < room seen vs
  room-lt seen x vs h m = ground (arith, room-cons seen x vs h)

  -- A walk of one edge or more.
  pub data Walk (E : K → K → Type 0) : K → K → Type 0 where
    one : {u v : K} → E u v → Walk E u v
    more : {u w v : K} → E u w → Walk E w v → Walk E u v

module _ {K : Type 0} ⦃e : Eq K⦄ (nodes : List (GraphNode K)) (edges : List (GraphEdge K))
    (distinct : Distinct (map node_id nodes)) where
  abbrev pub GraphWalk : K → K → Type 0
  GraphWalk = Walk (Edge nodes edges distinct)

  -- Along a walk into a placed node the index grows.
  Walk-rank :
      (order : List K)
      → IsRanked (ids nodes edges distinct) distinct edges order
      → {u v : K} → GraphWalk u v
      → contains order v ≡ true
      → (contains order u ≡ true) × (position order u < position order v)
  Walk-rank order r (one {u} {v} h) m = r u v h m
  Walk-rank order r (more {u} {w} {v} h p) m =
      let (mw, lt) = Walk-rank order r p m in let (mu, lt') = r u w h mw in (mu, omega arith)

  -- No closed walk goes through a placed node, and none leads to one from a closed walk.
  placed-not-behind :
      (order : List K)
      → IsOrder nodes edges distinct order
      → {w v : K} → GraphWalk w w
      → GraphWalk w v
      → contains order v ≡ true
      → ⊥
  placed-not-behind order o loop p m =
      let (mw, _) = Walk-rank order o.ranked p m in
      let (_, lt) = Walk-rank order o.ranked loop mw in absurd (omega arith)

  -- The nodes on a closed walk or behind one.
  abbrev pub IsBehindCycle : K → Type 0
  IsBehindCycle v = (w : K) × GraphWalk w w × GraphWalk w v

  -- From a node that is left out, walk back along edges until a node repeats.
  trace :
      (order : List K)
      → IsOrder nodes edges distinct order
      → (target : K) (fuel : ℕ) (seen : List K) (x : K)
      → room seen (ids nodes edges distinct) ≤ fuel
      → contains (ids nodes edges distinct) x ≡ true
      → contains order x ≡ false
      → contains seen x ≡ false
      → ((s : K) → contains seen s ≡ true → GraphWalk x s)
      → (x ≡ target) ⊎ GraphWalk x target
      → IsBehindCycle target
  unfolding contains
  trace order o target zero seen x r mx nx fresh walks to =
      absurd (omega (arith, room-lt seen x (ids nodes edges distinct) fresh mx))
  trace order o target (suc fuel) seen x r mx nx fresh walks to =
      let (u, edge, nu) = o.left x mx nx in
      let onward = walk_on edge to in
      elim (Bool-cases (contains (x ∷ seen) u)) [
        | inl again ↦ (u, closed u edge again, onward)
        | inr new ↦
            trace order o target fuel (x ∷ seen) u
              (omega (arith, room-lt seen x (ids nodes edges distinct) fresh mx))
              (HasEdge-valid (ids nodes edges distinct) distinct edges u x edge).0 nu new
              (λ s ms. extend u edge s ms) (inr onward)
      ]
    where
      walk_on :
          {u : K}
          → Edge nodes edges distinct u x
          → (x ≡ target) ⊎ GraphWalk x target
          → GraphWalk u target
      walk_on edge (inl same) = subst (GraphWalk _) same (one edge)
      walk_on edge (inr p) = more edge p

      extend :
          (u : K)
          → Edge nodes edges distinct u x
          → (s : K) → contains (x ∷ seen) s ≡ true
          → GraphWalk u s
      extend u edge s ms = elim (Bool-cases (e.beq x s)) [
        | inl here ↦ subst (GraphWalk u) ((e.beq_iff x s).0 here) (one edge)
        | inr there ↦ more edge (walks s (ground arith))
      ]

      closed :
          (u : K) → Edge nodes edges distinct u x → contains (x ∷ seen) u ≡ true → GraphWalk u u
      closed u edge m = extend u edge u m

  left-IsBehindCycle :
      (order : List K)
      → IsOrder nodes edges distinct order
      → (v : K) → contains (ids nodes edges distinct) v ≡ true
      → contains order v ≡ false
      → IsBehindCycle v
  unfolding contains
  left-IsBehindCycle order o v m n =
      trace order o v (room [] (ids nodes edges distinct)) [] v (omega arith) m n refl (λ s ms. cc)
        (inl refl)

  -- A walk ends at a node.
  Walk-known : {u v : K} → GraphWalk u v → contains (ids nodes edges distinct) v ≡ true
  Walk-known (one {u} {v} h) = (HasEdge-valid (ids nodes edges distinct) distinct edges u v h).1
  Walk-known (more h p) = Walk-known p

  -- Where node ids are distinct, `detectCycle` returns, and it says whether some closed walk
  -- follows the edges between nodes.
  pub detect_cycle-decides :
      ((detect_cycle nodes edges ≡ some true) × (v : K) × GraphWalk v v)
      ⊎ ((detect_cycle nodes edges ≡ some false) × ((v : K) → ¬ GraphWalk v v))
  unfolding detect_cycle
  detect_cycle-decides =
      let (order, t, o) = topological_order-IsOrder nodes edges distinct in
      elim (Bool-cases (ltb (length order) (length nodes))) [
        | inl short ↦
            let (v, m, n) = o.missing (ground arith) in
            let (w, loop, _) = left-IsBehindCycle order o v m n in inl (rw (t, short), w, loop)
        | inr full ↦ inr (
          rw (t, full),
          λ v loop.
              placed-not-behind order o loop loop
                (o.complete (ground (arith, o.bounded)) v (Walk-known loop)),
        )
      ]

  left_out-known :
      (order : List K) (ns : List (GraphNode K)) (v : K)
      → contains (map node_id (filter (λ node. not (contains order (node_id node))) ns)) v
        ≡ (contains (map node_id ns) v && not (contains order v))
  unfolding contains filter
  left_out-known order [] v = refl
  left_out-known order (n ∷ ns) v =
      ground (arith, left_out-known order ns v, e.beq_iff (node_id n) v)

  -- Where node ids are distinct, `cycleNodeIds` returns exactly the nodes that lie on a closed walk
  -- or can be reached from one.
  pub cycle_node_ids-behind :
      (found : List K) × (cycle_node_ids nodes edges ≡ some found)
      × ((v : K) → (contains found v ≡ true) ↔ IsBehindCycle v)
  unfolding cycle_node_ids
  cycle_node_ids-behind =
      let (order, t, o) = topological_order-IsOrder nodes edges distinct in
      (
        map node_id (filter (λ node. not (contains order (node_id node))) nodes),
        rw t,
        λ v. (
          λ m.
              left-IsBehindCycle order o v (ground (arith, left_out-known order nodes v))
                (ground (arith, left_out-known order nodes v)),
          λ (w, loop, p). rw (left_out-known order nodes v) (elim (Bool-cases (contains order v)) [
            | inl placed ↦ absurd (placed-not-behind order o loop p placed)
            | inr out ↦ rw (Walk-known p, out)
          ]),
        ),
      )
