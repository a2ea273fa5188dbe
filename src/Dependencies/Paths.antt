-- ===== src/Dependencies/Paths.antt =====
-- `cyclePathIds` of the server over the edges that it is given.
use critical_path_api.Prelude.{
  ℕ, ◌≡◌, ◌≢◌, subst, inl, inr, Bool, ◌&&◌, ◌||◌, List, [], ◌∷◌, foldl, some, none, arith, ◌==◌,
  any, contains, contains-append, Map, lookup, insert, lookup-insert, nat_eq, fun_ext, Bool-cases,
  Option-cases, if◌then◌else◌, ◌++◌,
}
use critical_path_api.Dependencies.{
  DependencyEdge, add_target, targets_of, dependency_blocks, cycle_path_ids,
}
use critical_path_api.Dependencies.Loops.{Decides}
use critical_path_api.Dependencies.Trail.{has_target}
use critical_path_api.Dependencies.Correct.{cycle_path-Decides}

-- The edges as a test.
abbrev pub is_edge : List DependencyEdge → ℕ → ℕ → Bool
is_edge edges u v = any (λ e. e.blocker_task_id == u && e.blocked_task_id == v) edges

targets_of-insert :
    (from : ℕ) (ts : List ℕ) (blocks : Map ℕ (List ℕ)) (u : ℕ)
    → targets_of (insert from ts blocks) u ≡ (if from == u then ts else targets_of blocks u)
unfolding targets_of
targets_of-insert from ts blocks u = elim (Bool-cases (from == u)) [
  | inl e ↦ rw (lookup-insert from u ts blocks, targets_of, e)
  | inr e ↦ rw (lookup-insert from u ts blocks, targets_of, e)
]

targets_of-none : (k : ℕ) (m : Map ℕ (List ℕ)) → lookup k m ≡ none → targets_of m k ≡ []
unfolding targets_of
targets_of-none k m e = rw (e, targets_of)

targets_of-some :
    (k : ℕ) (ts : List ℕ) (m : Map ℕ (List ℕ)) → lookup k m ≡ some ts → targets_of m k ≡ ts
unfolding targets_of
targets_of-some k ts m e = rw (e, targets_of)

-- A target is added at the end of its list.
targets_of-add_target :
    (from to : ℕ) (blocks : Map ℕ (List ℕ)) (u : ℕ)
    → targets_of (add_target from to blocks) u
      ≡ (if from == u then targets_of blocks u ++ to ∷ [] else targets_of blocks u)
unfolding add_target
targets_of-add_target from to blocks u = elim (Option-cases (lookup from blocks)) [
  | inl e ↦
      rw (e, add_target)
        (ground (arith, targets_of-insert from (to ∷ []) blocks u, targets_of-none from blocks e))
  | inr (ts, e) ↦
      rw (e, add_target)
        (ground (
          arith,
          targets_of-insert from (ts ++ to ∷ []) blocks u,
          targets_of-some from ts blocks e,
        ))
]

has_target-add_target :
    (from to : ℕ) (blocks : Map ℕ (List ℕ)) (u v : ℕ)
    → has_target (add_target from to blocks) u v ≡ (has_target blocks u v || (from == u && to == v))
unfolding contains
has_target-add_target from to blocks u v = elim (Bool-cases (from == u)) [
  | inl e ↦
      rw
        (
          targets_of-add_target from to blocks u,
          e,
          contains-append (targets_of blocks u) (to ∷ []) v,
        )
        (ground arith)
  | inr e ↦ rw (targets_of-add_target from to blocks u, e) (ground arith)
]

has_target-dependencies :
    (edges : List DependencyEdge) (blocks : Map ℕ (List ℕ)) (u v : ℕ)
    → has_target (foldl (λ m e. add_target e.blocker_task_id e.blocked_task_id m) blocks edges) u v
      ≡ (has_target blocks u v || is_edge edges u v)
unfolding any
has_target-dependencies [] blocks u v = ground arith
has_target-dependencies (e ∷ edges) blocks u v = ground (
  arith,
  has_target-dependencies edges (add_target e.blocker_task_id e.blocked_task_id blocks) u v,
  has_target-add_target e.blocker_task_id e.blocked_task_id blocks u v,
)

has_target-blocks :
    (edges : List DependencyEdge) → has_target (dependency_blocks edges) ≡ is_edge edges
unfolding dependency_blocks targets_of lookup contains
has_target-blocks edges = fun_ext (λ u. fun_ext (λ v. has_target-dependencies edges [] u v))

-- Where the blocker is another task, `cyclePathIds` returns: the empty path exactly if no walk of
-- dependencies leads from the blocked task to the blocker, and else a closed loop that goes along
-- dependencies from the blocked task to the blocker and ends with the hop that is to be made.
pub cycle_path_ids-Decides :
    (edges : List DependencyEdge) (blocked blocker : ℕ)
    → blocked ≢ blocker
    → Decides (is_edge edges) blocked blocker (cycle_path_ids edges blocked blocker)
unfolding cycle_path_ids
cycle_path_ids-Decides edges blocked blocker ne =
    subst (λ edge. Decides edge blocked blocker (cycle_path_ids edges blocked blocker))
      (has_target-blocks edges) (cycle_path-Decides (dependency_blocks edges) blocked blocker ne)
