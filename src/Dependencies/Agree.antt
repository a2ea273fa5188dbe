-- ===== src/Dependencies/Agree.antt =====
-- The client's `cyclePathIds` against the server's.
use critical_path_api.Graph.{GraphEdge}
use critical_path_api.Prelude.{
  ℕ, zero, suc, ◌≡◌, refl, ap, ◌∙◌, inl, inr, List, [], ◌∷◌, ◌++◌, Option, map, foldl, ◌==◌, Map,
  lookup, insert, contains, length, nat_eq, Bool-cases, Option-cases, List-cases,
}
use critical_path_api.Dependencies.{
  DependencyEdge, add_target, targets_of, dependency_blocks, Search, Scanned, going, found, visit,
  scan, climb, path_from, search, cycle_path, cycle_path_ids, target_count, first_search,
}
use critical_path_api.Dependencies.Client.{
  GraphSearch, GraphScanned, scanned, returned, draw_edge, graph_out, drawn_targets, graph_climb,
  graph_path, graph_scan, graph_search, graph_cycle_path_ids,
}

-- The edge that the server keeps for an edge of the drawn graph.
abbrev pub to_dependency : GraphEdge ℕ → DependencyEdge
to_dependency e = record { blocker_task_id = e.from; blocked_task_id = e.to }

-- The client's state for a state of the server.
abbrev drawn : Search → GraphSearch
drawn s = record { predecessors = s.predecessors; visited = s.visited; queue = s.queue }

draw_edge-add_target :
    (out : Map ℕ (List ℕ)) (e : GraphEdge ℕ) → draw_edge out e ≡ add_target e.from e.to out
unfolding draw_edge add_target
draw_edge-add_target out e = elim (Option-cases (lookup e.from out)) [
  | inl h ↦ rw (h, draw_edge, add_target) refl
  | inr (ts, h) ↦ rw (h, draw_edge, add_target) refl
]

graph_out-fold :
    (edges : List (GraphEdge ℕ)) (m : Map ℕ (List ℕ))
    → foldl draw_edge m edges
      ≡ foldl
          (λ blocks edge. add_target edge.blocker_task_id edge.blocked_task_id blocks)
          m
          (map to_dependency edges)
graph_out-fold [] m = refl
graph_out-fold (e ∷ edges) m =
    rw (draw_edge-add_target m e) (graph_out-fold edges (add_target e.from e.to m))

drawn_targets-targets_of :
    (out : Map ℕ (List ℕ)) (current : ℕ) → drawn_targets out current ≡ targets_of out current
unfolding drawn_targets targets_of
drawn_targets-targets_of out current = elim (Option-cases (lookup current out)) [
  | inl h ↦ rw (h, drawn_targets, targets_of) refl
  | inr (ts, h) ↦ rw (h, drawn_targets, targets_of) refl
]

module _ (blocked blocker : ℕ) where
  graph_climb-climb :
      (fuel : ℕ) (predecessors : Map ℕ ℕ) (node : ℕ) (path : List ℕ)
      → graph_climb blocked blocker fuel predecessors node path
        ≡ climb blocked blocker fuel predecessors node path
  unfolding graph_climb climb
  graph_climb-climb zero predecessors node path = refl
  graph_climb-climb (suc fuel) predecessors node path = elim (Bool-cases (node == blocked)) [
    | inl b ↦ rw (b, graph_climb, climb) refl
    | inr b ↦ elim (Option-cases (lookup node predecessors)) [
      | inl h ↦ rw (b, h, graph_climb, climb) refl
      | inr (before, h) ↦
          rw (b, h, graph_climb, climb)
            (graph_climb-climb fuel predecessors before (path ++ node ∷ []))
    ]
  ]

  graph_path-path_from :
      (predecessors : Map ℕ ℕ) (current : ℕ)
      → graph_path blocked blocker predecessors current
        ≡ path_from blocked blocker predecessors current
  unfolding graph_path path_from
  graph_path-path_from predecessors current =
      rw
        (
          graph_path,
          path_from,
          graph_climb-climb (suc (length predecessors)) predecessors current (blocker ∷ []),
        )
        refl

  -- What the client makes of the end of the server's inner loop.
  abbrev end_of : ℕ → Scanned → GraphScanned
  end_of current (going s) = scanned (drawn s)
  end_of current (found s) = returned (path_from blocked blocker s.predecessors current)

  graph_scan-scan :
      (current : ℕ) (s : Search) (targets : List ℕ)
      → graph_scan blocked blocker current (drawn s) targets
        ≡ end_of current (scan blocked blocker current s targets)
  unfolding graph_scan scan visit
  graph_scan-scan current s [] = refl
  graph_scan-scan current s (next ∷ rest) = elim (Bool-cases (contains s.visited next)) [
    | inl b ↦ rw (b, graph_scan, scan) (graph_scan-scan current s rest)
    | inr b ↦ elim (Bool-cases (next == blocker)) [
      | inl c ↦
          rw (b, c, graph_scan, scan)
            (ap returned (graph_path-path_from (insert next current s.predecessors) current))
      | inr c ↦
          rw (b, c, graph_scan, scan)
            (graph_scan-scan current
              (record {
                predecessors = insert next current s.predecessors;
                visited = next ∷ s.visited;
                queue = s.queue ++ next ∷ [];
              })
              rest)
    ]
  ]

  -- How each of the loops goes on from the end of its inner loop.
  abbrev client_goes : (GraphSearch → Option (List ℕ)) → GraphScanned → Option (List ℕ)
  client_goes go (scanned s) = go s
  client_goes go (returned path) = path

  abbrev server_goes : (Search → Option (List ℕ)) → ℕ → Scanned → Option (List ℕ)
  server_goes go current (going s) = go s
  server_goes go current (found s) = path_from blocked blocker s.predecessors current

  goes_agree :
      (go : GraphSearch → Option (List ℕ)) (go' : Search → Option (List ℕ)) (current : ℕ)
      (end : Scanned)
      → ((s : Search) → go (drawn s) ≡ go' s)
      → client_goes go (end_of current end) ≡ server_goes go' current end
  goes_agree go go' current (going s) h = h s
  goes_agree go go' current (found s) h = refl

  graph_search-search :
      (fuel : ℕ) (out : Map ℕ (List ℕ)) (s : Search)
      → graph_search blocked blocker fuel out (drawn s) ≡ search blocked blocker fuel out s
  unfolding graph_search search
  graph_search-search zero out s = refl
  graph_search-search (suc fuel) out s = elim (List-cases s.queue) [
    | inl q ↦ rw (q, graph_search, search) refl
    | inr (current, rest, q) ↦
        let s' : Search = record s { queue = rest } in
        rw (q, graph_search, search, drawn_targets-targets_of out current)
          (ap (client_goes (graph_search blocked blocker fuel out))
              (graph_scan-scan current s' (targets_of out current))
            ∙ goes_agree (graph_search blocked blocker fuel out) (search blocked blocker fuel out)
                current (scan blocked blocker current s' (targets_of out current))
                (graph_search-search fuel out))
  ]

-- The search of the web client and that of the server, which are written apart, find the same
-- loop, or none, for the same edges in the same order.
pub graph_cycle_path_ids-cycle_path_ids :
    (edges : List (GraphEdge ℕ)) (blocked blocker : ℕ)
    → graph_cycle_path_ids edges blocked blocker
      ≡ cycle_path_ids (map to_dependency edges) blocked blocker
unfolding graph_cycle_path_ids cycle_path_ids cycle_path graph_out dependency_blocks first_search
graph_cycle_path_ids-cycle_path_ids edges blocked blocker =
    graph_search-search blocked blocker (suc (suc (target_count (graph_out edges))))
      (graph_out edges) (first_search blocked)
    ∙ ap (λ m. cycle_path m blocked blocker) (graph_out-fold edges [])
