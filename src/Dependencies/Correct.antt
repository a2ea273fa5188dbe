-- ===== src/Dependencies/Correct.antt =====
-- The search of `cyclePathIds` finds a loop exactly where a new dependency would close one.
use critical_path_api.Prelude.{
  ℕ, zero, suc, ◌≤◌, ◌<◌, ◌≡◌, ◌≢◌, refl, ap, subst, ◌∙◌, ◌⊎◌, inl, inr, true, false, List, [], ◌∷◌,
  ◌++◌, Option, none, arith, ◌==◌, ==_iff, length, contains, Map, lookup, insert, lookup-insert,
  length-insert_new, nat_eq, Bool-cases, List-cases,
}
use critical_path_api.Dependencies.{
  Search, Scanned, going, found, visit, scan, search, targets_of, target_count, path_from,
  first_search, cycle_path,
}
use critical_path_api.Dependencies.Trail.{
  HasEdge, has_target, Trail-Reach, Trail, root, hop, inner, Linked-inner, Trail-insert,
  path_from-Trail,
}
use critical_path_api.Dependencies.Loops.{Reach, here, step, Decides}
use critical_path_api.Dependencies.Scan.{
  visited-scan, queue-scan, goal-scan, work, work-scan, unvisited-le,
}

module _ (blocks : Map ℕ (List ℕ)) (start goal : ℕ) where
  -- A visited task has a trail to the start, no longer than `predecessors` is.
  abbrev Traced : Map ℕ ℕ → ℕ → Type 0
  Traced preds v = (n : ℕ) × (n ≤ length preds) × Trail blocks start preds v n

  record IsTraced (s : Search) : Type 0 where
    source : contains s.visited start ≡ true
    traced : (v : ℕ) → contains s.visited v ≡ true → Traced s.predecessors v
    fresh : (v : ℕ) → contains s.visited v ≡ false → lookup v s.predecessors ≡ none

  Traced-insert :
      (preds : Map ℕ ℕ) (b current v : ℕ)
      → lookup b preds ≡ none
      → Traced preds v
      → Traced (insert b current preds) v
  Traced-insert preds b current v h (n, le, c) = (
    n,
    omega (arith, length-insert_new b current preds h),
    Trail-insert blocks start b current h c,
  )

  Traced-hop :
      (preds : Map ℕ ℕ) (b current : ℕ)
      → b ≢ start
      → lookup b preds ≡ none
      → HasEdge blocks current b
      → Traced preds current
      → Traced (insert b current preds) b
  Traced-hop preds b current ne h e (n, le, c) = (
    suc n,
    omega (arith, length-insert_new b current preds h),
    hop ne (ground (arith, lookup-insert b b current preds)) e
        (Trail-insert blocks start b current h c),
  )

  visit-IsTraced :
      (s : Search) (current b : ℕ)
      → IsTraced s
      → contains s.visited current ≡ true
      → HasEdge blocks current b
      → contains s.visited b ≡ false
      → IsTraced (visit start goal s current b)
  unfolding visit contains
  visit-IsTraced s current b h m e new = record {
    source = ground arith;
    traced = λ v mv. elim (Bool-cases (b == v)) [
      | inl same ↦
          subst (λ x. Traced (insert b current s.predecessors) x) ((==_iff b v).0 same)
            (Traced-hop s.predecessors b current (λ q. ground (arith, h.source)) (h.fresh b new) e
              (h.traced current m))
      | inr other ↦
          Traced-insert s.predecessors b current v (h.fresh b new) (h.traced v (ground arith))
    ];
    fresh = λ v nv. ground (arith, lookup-insert b v current s.predecessors, h.fresh v);
  }

  abbrev Sublist : List ℕ → ℕ → Type 0
  Sublist ts current = (v : ℕ) → contains ts v ≡ true → HasEdge blocks current v

  -- What the inner loop ends with, where the scanned targets are `current`'s.
  abbrev Ends : ℕ → Scanned → Type 0
  Ends current (going t) = IsTraced t
  Ends current (found t) = Traced t.predecessors current × HasEdge blocks current goal

  scan-Ends :
      (current : ℕ) (s : Search) (ts : List ℕ)
      → Sublist ts current
      → IsTraced s
      → contains s.visited current ≡ true
      → Ends current (scan start goal current s ts)
  unfolding scan contains
  scan-Ends current s [] sub h m = h
  scan-Ends current s (b ∷ ts) sub h m = elim (Bool-cases (contains s.visited b)) [
    | inl old ↦ rw (old, scan) (scan-Ends current s ts (λ v mv. sub v (ground arith)) h m)
    | inr new ↦
        let next = visit-IsTraced s current b h m (sub b (ground arith)) new in
        elim (Bool-cases (b == goal)) [
          | inl hit ↦
              rw (new, hit, scan)
                (
                  next.traced current (ground arith),
                  subst (HasEdge blocks current) ((==_iff b goal).0 hit) (sub b (ground arith)),
                )
          | inr miss ↦
              rw (new, miss, scan)
                (scan-Ends current
                  (record (visit start goal s current b) { queue = s.queue ++ b ∷ [] }) ts
                  (λ v mv. sub v (ground arith))
                  (record { source = next.source; traced = next.traced; fresh = next.fresh })
                  (ground arith))
        ]
  ]

  record Inv (s : Search) : Type 0 where
    tracing : IsTraced s
    hidden : contains s.visited goal ≡ false
    queued : (v : ℕ) → contains s.queue v ≡ true → contains s.visited v ≡ true
    closed :
        (u v : ℕ)
        → contains s.visited u ≡ true
        → HasEdge blocks u v
        → (contains s.queue u ≡ true) ⊎ (contains s.visited v ≡ true)

  -- A round that goes on keeps the invariant.
  Inv-scan :
      (s t : Search) (current : ℕ) (rest : List ℕ)
      → s.queue ≡ current ∷ rest
      → Inv s
      → scan start goal current (record s { queue = rest }) (targets_of blocks current) ≡ going t
      → IsTraced t
      → Inv t
  unfolding contains
  Inv-scan s t current rest q h e traced =
      let s' = record s { queue = rest } in
      let visits =
        λ (v : ℕ). visited-scan start goal current s' t (targets_of blocks current) v e in
      let queues = λ (v : ℕ). queue-scan start goal current s' t (targets_of blocks current) v e in
      record {
        tracing = traced;
        hidden = goal-scan start goal current s' t (targets_of blocks current) e ∙ h.hidden;
        queued = λ v m. ground (arith, visits v, queues v, h.queued v, ap (λ xs. contains xs v) q);
        closed = λ u v m edge. ground (
          arith,
          visits u,
          visits v,
          queues u,
          h.closed u v,
          ap (λ xs. contains xs u) q,
          ==_iff current u,
        );
      }

  reaches-visited :
      (s : Search)
      → Inv s
      → s.queue ≡ []
      → {v : ℕ} → Reach (has_target blocks) start v
      → contains s.visited v ≡ true
  unfolding contains
  reaches-visited s h q here = h.tracing.source
  reaches-visited s h q (step {u} {v} r e) =
      let seen = reaches-visited s h q r in
      elim (h.closed u v seen e) [
        | inl waiting ↦ ground (arith, ap (λ xs. contains xs u) q)
        | inr m ↦ m
      ]

  abbrev Decided : Option (List ℕ) → Type 0
  Decided = Decides (has_target blocks) start goal

  found-Decides :
      (preds : Map ℕ ℕ) (current : ℕ)
      → Traced preds current
      → HasEdge blocks current goal
      → Decided (path_from start goal preds current)
  found-Decides preds current (n, le, c) e = inr (
    start ∷ inner blocks start c ++ goal ∷ start ∷ [],
    path_from-Trail blocks start goal preds c le,
    (inner blocks start c, refl, Linked-inner blocks start c (goal ∷ []) (e, (tt, tt))),
    step (Trail-Reach blocks start c) e,
  )

  -- What is returned after one round, if the later rounds decide.
  abbrev round : ℕ → ℕ → Scanned → Option (List ℕ)
  round fuel current (going t) = search start goal fuel blocks t
  round fuel current (found t) = path_from start goal t.predecessors current

  round-Decides :
      (fuel : ℕ) (s : Search) (current : ℕ) (rest : List ℕ) (r : Scanned)
      → s.queue ≡ current ∷ rest
      → work start goal blocks s < suc fuel
      → Inv s
      → scan start goal current (record s { queue = rest }) (targets_of blocks current) ≡ r
      → Ends current r
      → ((t : Search)
          → work start goal blocks t < fuel
          → Inv t
          → Decided (search start goal fuel blocks t))
      → Decided (round fuel current r)
  round-Decides fuel s current rest (going t) q w h e ends later =
      later t
        (omega (
          arith,
          work-scan start goal blocks current (record s { queue = rest }) t
              (targets_of blocks current) (λ v m. m) e,
          ap length q,
        ))
        (Inv-scan s t current rest q h e ends)
  round-Decides fuel s current rest (found t) q w h e ends later =
      found-Decides t.predecessors current ends.0 ends.1

  search-Decides :
      (fuel : ℕ) (s : Search)
      → work start goal blocks s < fuel
      → Inv s
      → Decided (search start goal fuel blocks s)
  unfolding search contains
  search-Decides zero s w h = absurd (omega arith)
  search-Decides (suc fuel) s w h = elim (List-cases s.queue) [
    | inl q ↦ rw (q, search) (inl (refl, λ r. ground (arith, reaches-visited s h q r, h.hidden)))
    | inr (current, rest, q) ↦
        let s' = record s { queue = rest } in
        let ts = targets_of blocks current in
        let seen = h.queued current (ground (arith, ap (λ xs. contains xs current) q)) in
        rw (q, search)
          (round-Decides fuel s current rest (scan start goal current s' ts) q w h refl
            (scan-Ends current s' ts (λ v m. m)
              (record {
                source = h.tracing.source;
                traced = h.tracing.traced;
                fresh = h.tracing.fresh;
              })
              seen)
            (search-Decides fuel))
  ]

  -- From the start: the fuel is enough, so the search decides.
  pub cycle_path-Decides : start ≢ goal → Decided (cycle_path blocks start goal)
  unfolding cycle_path first_search contains lookup
  cycle_path-Decides ne =
      search-Decides (suc (suc (target_count blocks))) (first_search start)
        (omega (arith, unvisited-le (start ∷ []) blocks))
        (record {
          tracing = record {
            source = ground arith;
            traced = λ v m.
                subst (λ x. Traced [] x) ((==_iff start v).0 (ground arith)) (0, omega arith, root);
            fresh = λ v m. refl;
          };
          hidden = ground arith;
          queued = λ v m. m;
          closed = λ u v m e. inl m;
        })
