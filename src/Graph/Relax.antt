-- ===== src/Graph/Relax.antt =====
-- The inner loop of `topologicalOrder`: settling the edges out of the node that was placed.
use critical_path_api.Prelude.{
  ℕ, ◌+◌, ◌-◌, ◌<◌, ◌≡◌, ◌*◌, inl, inr, true, ◌&&◌, List, [], ◌∷◌, arith, Eq, ◌==◌, ltb,
  if◌then◌else◌, Bool-cases, length, length-append, filter, contains, count, count-append, Distinct,
  count-Distinct, Map, insert,
}
use critical_path_api.Graph.{Kahn, degree, relax}
use critical_path_api.Graph.Degrees.{degree-insert}

module _ {K : Type 0} ⦃e : Eq K⦄ where
  -- The nodes that still wait for another one.
  pub waiting : Map K ℕ → List K → ℕ
  waiting m [] = 0
  waiting m (v ∷ vs) = (if ltb 0 (degree m v) then 1 else 0) + waiting m vs

  -- Writing a degree changes the number of waiting nodes at that node only.
  pub waiting-insert :
      (m : Map K ℕ) (k : K) (d : ℕ) (vs : List K)
      → waiting (insert k d m) vs + count vs k * (if ltb 0 (degree m k) then 1 else 0)
        ≡ waiting m vs + count vs k * (if ltb 0 d then 1 else 0)
  unfolding waiting count
  waiting-insert m k d [] = omega arith
  waiting-insert m k d (v ∷ vs) =
      ground (arith, waiting-insert m k d vs, degree-insert k d m v, e.beq_iff k v, e.beq_iff v k)

  pub length-ready :
      (m : Map K ℕ) (ids : List K)
      → length (filter (λ id. degree m id == 0) ids) + waiting m ids ≡ length ids
  unfolding filter waiting
  length-ready m [] = omega arith
  length-ready m (id ∷ ids) = ground (arith, length-ready m ids)

  -- If a node waits, one can be found.
  pub find_waiting :
      (m : Map K ℕ) (ids : List K)
      → 0 < waiting m ids
      → (v : K) × (contains ids v ≡ true) × (0 < degree m v)
  unfolding waiting contains
  find_waiting m [] h = absurd (omega arith)
  find_waiting m (id ∷ ids) h = elim (Bool-cases (ltb 0 (degree m id))) [
    | inl here ↦ (id, ground (arith, e.beq_iff id id), ground arith)
    | inr there ↦ let (v, m', d) = find_waiting m ids (ground arith) in (v, ground arith, d)
  ]

  pub waiting_none :
      (m : Map K ℕ) (ids : List K) (v : K)
      → waiting m ids ≡ 0
      → contains ids v ≡ true
      → degree m v ≡ 0
  unfolding waiting contains
  waiting_none m [] v h c = cc
  waiting_none m (id ∷ ids) v h c = ground (arith, waiting_none m ids v, e.beq_iff id v)

module _ {K : Type 0} ⦃e : Eq K⦄ (ids : List K) (distinct : Distinct ids) where
  -- What holds while the edges to `ts` are still to be settled, when `rest v` is the number of
  -- edges into `v` from nodes that are not placed.
  pub record IsRelaxing (rest : K → ℕ) (ts : List K) (s : Kahn K) : Type 0 where
    pub degrees : (v : K) → degree s.indegree v ≡ rest v + count ts v
    pub balance :
        (v : K)
        → count s.order v + count s.queue v
          ≡ (if contains ids v && degree s.indegree v == 0 then 1 else 0)
    pub total : length s.order + length s.queue + waiting s.indegree ids ≡ length ids

  -- The degree of the next target is not 0, so the subtraction does not fall below it.
  pub degree-pos :
      (rest : K → ℕ) (t : K) (ts : List K) (s : Kahn K)
      → IsRelaxing rest (t ∷ ts) s
      → 0 < degree s.indegree t
  unfolding count
  degree-pos rest t ts s h = ground (arith, h.degrees t, e.beq_iff t t)

  pub relax-degree :
      (rest : K → ℕ) (t : K) (ts : List K) (s : Kahn K)
      → IsRelaxing rest (t ∷ ts) s
      → (v : K) → degree (relax s t).indegree v ≡ rest v + count ts v
  unfolding relax count
  relax-degree rest t ts s h v = ground (
    arith,
    h.degrees v,
    degree-pos rest t ts s h,
    e.beq_iff t v,
    degree-insert t (degree s.indegree t - 1) s.indegree v,
  )

  pub relax-balance :
      (rest : K → ℕ) (t : K) (ts : List K) (s : Kahn K)
      → contains ids t ≡ true
      → IsRelaxing rest (t ∷ ts) s
      → (v : K)
      → count (relax s t).order v + count (relax s t).queue v
        ≡ (if contains ids v && degree (relax s t).indegree v == 0 then 1 else 0)
  unfolding relax count
  relax-balance rest t ts s m h v = ground (
    arith,
    h.balance v,
    degree-pos rest t ts s h,
    e.beq_iff t v,
    degree-insert t (degree s.indegree t - 1) s.indegree v,
    count-append s.queue (t ∷ []) v,
  )

  pub relax-total :
      (rest : K → ℕ) (t : K) (ts : List K) (s : Kahn K)
      → contains ids t ≡ true
      → IsRelaxing rest (t ∷ ts) s
      → length (relax s t).order + length (relax s t).queue + waiting (relax s t).indegree ids
        ≡ length ids
  unfolding relax
  relax-total rest t ts s m h = ground (
    arith,
    h.total,
    degree-pos rest t ts s h,
    waiting-insert s.indegree t (degree s.indegree t - 1) ids,
    count-Distinct ids t distinct,
    length-append s.queue (t ∷ []),
  )
