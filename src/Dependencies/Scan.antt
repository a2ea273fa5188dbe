-- ===== src/Dependencies/Scan.antt =====
-- The inner loop of `cyclePathIds`: which tasks it visits and queues, and the work that is left.
use critical_path_api.Prelude.{
  ℕ, ◌+◌, ◌≤◌, ◌≡◌, true, false, not, ◌||◌, ◌&&◌, List, [], ◌∷◌, ◌++◌, arith, if◌then◌else◌, length,
  length-append, contains, contains-append, Map, lookup, nat_eq,
}
use critical_path_api.Dependencies.{Search, going, scan, visit, targets_of, target_count}

module _ (start goal : ℕ) where
  -- A scan that goes on has visited what was visited before and all the targets.
  pub visited-scan :
      (current : ℕ) (s t : Search) (ts : List ℕ) (v : ℕ)
      → scan start goal current s ts ≡ going t
      → contains t.visited v ≡ (contains s.visited v || contains ts v)
  unfolding scan visit contains
  visited-scan current s t [] v e = ground arith
  visited-scan current s t (b ∷ ts) v e = ground (
    arith,
    visited-scan current s t ts v,
    visited-scan current (record (visit start goal s current b) { queue = s.queue ++ b ∷ [] }) t ts
        v,
  )

  -- It queues each task that it visits, and forgets none that is queued.
  pub queue-scan :
      (current : ℕ) (s t : Search) (ts : List ℕ) (v : ℕ)
      → scan start goal current s ts ≡ going t
      → contains t.queue v
        ≡ (contains s.queue v || (contains t.visited v && not (contains s.visited v)))
  unfolding scan visit contains
  queue-scan current s t [] v e = ground arith
  queue-scan current s t (b ∷ ts) v e =
      let next = record (visit start goal s current b) { queue = s.queue ++ b ∷ [] } in
      ground (
        arith,
        queue-scan current s t ts v,
        queue-scan current next t ts v,
        visited-scan current next t ts v,
        contains-append s.queue (b ∷ []) v,
      )

  -- It does not visit the blocker.
  pub goal-scan :
      (current : ℕ) (s t : Search) (ts : List ℕ)
      → scan start goal current s ts ≡ going t
      → contains t.visited goal ≡ contains s.visited goal
  unfolding scan visit contains
  goal-scan current s t [] e = ground arith
  goal-scan current s t (b ∷ ts) e = ground (
    arith,
    goal-scan current s t ts,
    goal-scan current (record (visit start goal s current b) { queue = s.queue ++ b ∷ [] }) t ts,
  )

-- The targets in a list that are not visited yet.
pub unvisited_in : List ℕ → List ℕ → ℕ
unfolding contains
unvisited_in visited [] = 0
unvisited_in visited (v ∷ vs) = (if contains visited v then 0 else 1) + unvisited_in visited vs

pub unvisited : List ℕ → Map ℕ (List ℕ) → ℕ
unvisited visited [] = 0
unvisited visited ((_, ts) ∷ blocks) = unvisited_in visited ts + unvisited visited blocks

unvisited_in-cons :
    (visited : List ℕ) (b : ℕ) (ts : List ℕ)
    → contains visited b ≡ false
    → unvisited_in (b ∷ visited) ts + (if contains ts b then 1 else 0) ≤ unvisited_in visited ts
unfolding unvisited_in contains
unvisited_in-cons visited b [] h = omega arith
unvisited_in-cons visited b (t ∷ ts) h = ground (arith, unvisited_in-cons visited b ts h)

unvisited-cons :
    (visited : List ℕ) (b u : ℕ) (blocks : Map ℕ (List ℕ))
    → contains visited b ≡ false
    → unvisited (b ∷ visited) blocks + (if contains (targets_of blocks u) b then 1 else 0)
      ≤ unvisited visited blocks
unfolding unvisited targets_of lookup contains
unvisited-cons visited b u [] h = omega arith
unvisited-cons visited b u ((k, ts) ∷ blocks) h =
    ground (arith, unvisited_in-cons visited b ts h, unvisited-cons visited b u blocks h)

unvisited_in-le : (visited ts : List ℕ) → unvisited_in visited ts ≤ length ts
unfolding unvisited_in
unvisited_in-le visited [] = omega arith
unvisited_in-le visited (t ∷ ts) = ground (arith, unvisited_in-le visited ts)

pub unvisited-le :
    (visited : List ℕ) (blocks : Map ℕ (List ℕ)) → unvisited visited blocks ≤ target_count blocks
unfolding unvisited target_count
unvisited-le visited [] = omega arith
unvisited-le visited ((_, ts) ∷ blocks) =
    omega (arith, unvisited_in-le visited ts, unvisited-le visited blocks)

module _ (start goal : ℕ) (blocks : Map ℕ (List ℕ)) where
  abbrev pub work : Search → ℕ
  work s = unvisited s.visited blocks + length s.queue

  -- Scanning targets of `current` adds no work: what is queued is no longer to be visited.
  pub work-scan :
      (current : ℕ) (s t : Search) (ts : List ℕ)
      → ((v : ℕ) → contains ts v ≡ true → contains (targets_of blocks current) v ≡ true)
      → scan start goal current s ts ≡ going t
      → work t ≤ work s
  unfolding scan visit contains
  work-scan current s t [] sub e = ground arith
  work-scan current s t (b ∷ ts) sub e = ground (
    arith,
    work-scan current s t ts (λ v m. sub v (ground arith)),
    work-scan current (record (visit start goal s current b) { queue = s.queue ++ b ∷ [] }) t ts
        (λ v m. sub v (ground arith)),
    sub b (ground arith),
    unvisited-cons s.visited b current blocks,
    length-append s.queue (b ∷ []),
  )
