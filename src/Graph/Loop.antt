-- ===== src/Graph/Loop.antt =====
-- The outer loop of `topologicalOrder`: it ends, and every edge into a placed node comes from a
-- node that was placed before.
use critical_path_api.Prelude.{
  ℕ, zero, suc, ◌+◌, ◌<◌, ◌≡◌, refl, ap, inl, inr, true, false, List, [], ◌∷◌, ◌++◌, foldl, some,
  arith, Eq, if◌then◌else◌, List-cases, length, length-append, contains, contains-append,
  contains-count, count, count-append, Distinct,
}
use critical_path_api.Graph.{GraphEdge, Adjacency, Kahn, out_of, relax, kahn}
use critical_path_api.Graph.Degrees.{
  edges_between-valid, pending, edges_between, pending-place, IsAdjacency,
}
use critical_path_api.Graph.Relax.{IsRelaxing, relax-degree, relax-balance, relax-total}

module _ {K : Type 0} ⦃e : Eq K⦄ where
  -- The index at which `a` first occurs, or the length.
  pub position : List K → K → ℕ
  position [] a = 0
  position (x ∷ xs) a = if e.beq x a then 0 else suc (position xs a)

  pub position-lt : (xs : List K) (a : K) → contains xs a ≡ true → position xs a < length xs
  unfolding position contains
  position-lt [] a h = cc
  position-lt (x ∷ xs) a h = ground (arith, position-lt xs a)

  position-append :
      (xs ys : List K) (a : K)
      → position (xs ++ ys) a ≡ (if contains xs a then position xs a else length xs + position ys a)
  unfolding position contains
  position-append [] ys a = omega arith
  position-append (x ∷ xs) ys a = ground (arith, position-append xs ys a)

  relax-order : (s : Kahn K) (ts : List K) → (foldl relax s ts).order ≡ s.order
  unfolding relax
  relax-order s [] = refl
  relax-order s (t ∷ ts) = relax-order (relax s t) ts

module _ {K : Type 0} ⦃e : Eq K⦄ (ids : List K) (distinct : Distinct ids) where
  relax_all :
      (rest : K → ℕ) (ts : List K) (s : Kahn K)
      → ((v : K) → contains ts v ≡ true → contains ids v ≡ true)
      → IsRelaxing ids distinct rest ts s
      → IsRelaxing ids distinct rest [] (foldl relax s ts)
  unfolding contains
  relax_all rest [] s sub h = h
  relax_all rest (t ∷ ts) s sub h =
      let m = sub t (ground (arith, e.beq_iff t t)) in
      relax_all rest ts (relax s t) (λ v mv. sub v (ground arith))
        (record {
          degrees = relax-degree ids distinct rest t ts s h;
          balance = relax-balance ids distinct rest t ts s m h;
          total = relax-total ids distinct rest t ts s m h;
        })

  module _ (edges : List (GraphEdge K)) where
    abbrev pub HasEdge : K → K → Type 0
    HasEdge u v = 0 < edges_between ids edges u v

    pub HasEdge-valid : (u v : K) → HasEdge u v → (contains ids u ≡ true) × (contains ids v ≡ true)
    HasEdge-valid = edges_between-valid ids edges

    targets_known :
        (a : Adjacency K)
        → IsAdjacency ids edges a
        → (id v : K) → contains (out_of a.out id) v ≡ true
        → contains ids v ≡ true
    targets_known a adj id v m =
        (HasEdge-valid id v (ground (arith, adj.outs id v, contains-count (out_of a.out id) v))).1

    pub pending-edge :
        (placed : List K) (u v : K)
        → HasEdge u v
        → contains placed u ≡ false
        → 0 < pending ids placed edges v
    pending-edge placed u v h n = omega (arith, pending-place ids placed edges u v n)

    -- Every edge into a placed node comes from a node at a smaller index.
    abbrev pub IsRanked : List K → Type 0
    IsRanked order =
        (u v : K)
        → HasEdge u v
        → contains order v ≡ true
        → (contains order u ≡ true) × (position order u < position order v)

    pub record Inv (s : Kahn K) : Type 0 where
      pub settled : IsRelaxing ids distinct (pending ids s.order edges) [] s
      pub ranked : IsRanked s.order

    abbrev placing : Kahn K → K → List K → Kahn K
    placing s id rest = record s { queue = rest; order = s.order ++ id ∷ [] }

    -- The head of the queue is a node that is not placed and waits for nothing.
    head-fresh :
        (s : Kahn K) (id : K) (rest : List K)
        → s.queue ≡ id ∷ rest
        → Inv s
        → (contains s.order id ≡ false) × (pending ids s.order edges id ≡ 0)
    unfolding count
    head-fresh s id rest q h = ground (
      arith,
      h.settled.balance id,
      h.settled.degrees id,
      contains-count s.order id,
      e.beq_iff id id,
      ap (λ xs. count xs id) q,
    )

    placing-IsRelaxing :
        (a : Adjacency K) (s : Kahn K) (id : K) (rest : List K)
        → IsAdjacency ids edges a
        → s.queue ≡ id ∷ rest
        → Inv s
        → IsRelaxing ids distinct
            (pending ids (s.order ++ id ∷ []) edges)
            (out_of a.out id)
            (placing s id rest)
    unfolding count
    placing-IsRelaxing a s id rest adj q h = record {
      degrees = λ v. ground (
        arith,
        h.settled.degrees v,
        adj.outs id v,
        pending-place ids s.order edges id v (head-fresh s id rest q h).0,
      );
      balance = λ v.
          ground
            (arith, h.settled.balance v, count-append s.order (id ∷ []) v, ap (λ xs. count xs v) q);
      total = omega (arith, h.settled.total, ap length q, length-append s.order (id ∷ []));
    }

    place-IsRanked :
        (s : Kahn K) (id : K) (rest : List K)
        → s.queue ≡ id ∷ rest
        → Inv s
        → IsRanked (s.order ++ id ∷ [])
    unfolding contains position
    place-IsRanked s id rest q h u v edge m =
        let (fresh, free) = head-fresh s id rest q h in
        ground (
          arith,
          fresh,
          free,
          h.ranked u v edge,
          pending-edge s.order u id,
          contains-append s.order (id ∷ []) v,
          contains-append s.order (id ∷ []) u,
          position-append s.order (id ∷ []) u,
          position-append s.order (id ∷ []) v,
          position-lt s.order u,
          e.beq_iff id v,
          e.beq_iff id u,
        )

    round-Inv :
        (a : Adjacency K) (s : Kahn K) (id : K) (rest : List K)
        → IsAdjacency ids edges a
        → s.queue ≡ id ∷ rest
        → Inv s
        → Inv (foldl relax (placing s id rest) (out_of a.out id))
    round-Inv a s id rest adj q h =
        let order = s.order ++ id ∷ [] in
        let same = relax-order (placing s id rest) (out_of a.out id) in
        record {
          settled = rw same (
              relax_all (pending ids order edges) (out_of a.out id) (placing s id rest)
                (targets_known a adj id) (placing-IsRelaxing a s id rest adj q h));
          ranked = rw same (place-IsRanked s id rest q h);
        }

    -- With a unit of fuel for each node that is not placed and one more, the loop ends with an
    -- empty queue.
    pub kahn-ends :
        (a : Adjacency K) (fuel : ℕ) (s : Kahn K)
        → IsAdjacency ids edges a
        → length ids < fuel + length s.order
        → Inv s
        → (t : Kahn K) × (kahn fuel a.out s ≡ some t.order) × (t.queue ≡ []) × Inv t
    unfolding kahn
    kahn-ends a zero s adj f h = absurd (omega (arith, h.settled.total))
    kahn-ends a (suc fuel) s adj f h = elim (List-cases s.queue) [
      | inl q ↦ (s, rw (q, kahn), q, h)
      | inr (id, rest, q) ↦
          let s' = placing s id rest in
          let (t, k, empty, inv) =
            kahn-ends a fuel (foldl relax s' (out_of a.out id)) adj
              (omega (
                arith,
                f,
                length-append s.order (id ∷ []),
                ap length (relax-order s' (out_of a.out id)),
              ))
              (round-Inv a s id rest adj q h) in
          (t, rw (q, kahn) k, empty, inv)
    ]
