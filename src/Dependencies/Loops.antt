-- ===== src/Dependencies/Loops.antt =====
-- What the search is for: walks along edges, and the loop that a new edge would close. The edges
-- are a Boolean test, so that this does not depend on how the code stores them.
use critical_path_api.Prelude.{ℕ, ◌≡◌, ◌⊎◌, true, Bool, List, [], ◌∷◌, ◌++◌, Option, some}

-- Each task in the list has an edge to the next one.
abbrev pub Linked : (ℕ → ℕ → Bool) → List ℕ → Type 0
Linked edge [] = Unit {0}
Linked edge (u ∷ rest) = elim rest [ [] ↦ Unit {0} | v ∷ _ ↦ edge u v ≡ true ] × Linked edge rest

-- A walk along edges, of any length.
pub data Reach (edge : ℕ → ℕ → Bool) (start : ℕ) : ℕ → Type 0 where
  here : Reach edge start start
  step : {u v : ℕ} → Reach edge start u → edge u v ≡ true → Reach edge start v

-- A closed loop through the edge from `goal` to `start`, which is not there yet: it leaves the
-- start, comes to the goal along edges, and the start is repeated as the last element.
abbrev pub IsLoop : (ℕ → ℕ → Bool) → ℕ → ℕ → List ℕ → Type 0
IsLoop edge start goal path =
    (between : List ℕ) × (path ≡ start ∷ between ++ goal ∷ start ∷ [])
    × Linked edge (start ∷ between ++ goal ∷ [])

-- The search returns: the empty path where no walk leads to the goal, and else a loop.
abbrev pub Decides : (ℕ → ℕ → Bool) → ℕ → ℕ → Option (List ℕ) → Type 0
Decides edge start goal r =
    ((r ≡ some []) × ¬ Reach edge start goal)
    ⊎ ((path : List ℕ) × (r ≡ some path) × IsLoop edge start goal path × Reach edge start goal)
