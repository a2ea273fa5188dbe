-- ===== src/Ranks/Meant.antt =====
-- The index that a placement of the command line means.
use Prim.Native.String.{String}
use critical_path_api.Prelude.{
  ℕ, suc, ◌+◌, ◌≤◌, ◌≡◌, ◌≢◌, refl, sym, ap, inl, inr, true, false, List, [], ◌∷◌, Option, none,
  some, arith, length, get_elem?, ltb, Bool-cases, Option-cases, string_eq, contains, ◌<◌, lt→ltb,
}
use critical_path_api.Ranks.{index_of}
use critical_path_api.Ranks.Positions.{
  Placement, given, chosen_count, index_or_zero, index_past, anchored_index, placement_index,
}

-- The index that an anchor means among the ids of the rows, and that a placement means.
abbrev pub Beside :
    Option String → Option String → List String → (String → Option String) → ℕ → Type 0
Beside before after ids resolve_anchor index =
    ((reference id : String)
      → before ≡ some reference
      → resolve_anchor reference ≡ some id
      → contains ids id ≡ true
      → get_elem? ids index ≡ some id)
    × ((reference id : String)
        → after ≡ some reference
        → resolve_anchor reference ≡ some id
        → contains ids id ≡ true
        → (i : ℕ) × (index ≡ suc i) × (get_elem? ids i ≡ some id))
    × (before ≡ none → after ≡ none → index ≡ length ids)

abbrev pub Means : Placement → List String → (String → Option String) → ℕ → Type 0
Means p ids resolve_anchor index =
    (p.top ≡ true → index ≡ 0) × (p.top ≡ false → Beside p.before p.after ids resolve_anchor index)

index_of-elem :
    (id : String) (ids : List String)
    → contains ids id ≡ true
    → (i : ℕ) × (index_of id ids ≡ some i) × (get_elem? ids i ≡ some id)
unfolding index_of contains
index_of-elem id [] h = ground arith
index_of-elem id (x ∷ ids) h = elim (Bool-cases (string_eq.beq x id)) [
  | inl b ↦ (0, rw (b) refl, ap some ((string_eq.beq_iff x id).0 b))
  | inr b ↦
      let (i, at, elem) = index_of-elem id ids (ground (arith, h, b)) in
      (suc i, rw (b, at) refl, elem)
]

index_or_zero-elem :
    (id : String) (ids : List String)
    → contains ids id ≡ true
    → get_elem? ids (index_or_zero id ids) ≡ some id
unfolding index_or_zero
index_or_zero-elem id ids h =
    let (i, at, elem) = index_of-elem id ids h in rw (index_or_zero, at) elem

index_past-elem :
    (id : String) (ids : List String)
    → contains ids id ≡ true
    → (i : ℕ) × (index_past id ids ≡ suc i) × (get_elem? ids i ≡ some id)
unfolding index_past
index_past-elem id ids h =
    let (i, at, elem) = index_of-elem id ids h in (i, rw (index_past, at) refl, elem)

anchored_index-Beside :
    (before after : Option String) (ids : List String) (resolve_anchor : String → Option String)
    → ((reference : String) → resolve_anchor reference ≢ none)
    → given before + given after ≤ 1
    → (index : ℕ) × (anchored_index before after ids resolve_anchor ≡ some index)
      × Beside before after ids resolve_anchor index
unfolding anchored_index given
anchored_index-Beside (some x) (some y) ids resolve_anchor total h = ground arith
anchored_index-Beside none none ids resolve_anchor total h =
    (length ids, refl, (λ x id b. ground arith, λ x id b. ground arith, λ h k. refl))
anchored_index-Beside (some x) none ids resolve_anchor total h =
    elim (Option-cases (resolve_anchor x)) [
      | inl unresolved ↦ absurd (total x unresolved)
      | inr (id, found) ↦ (
        index_or_zero id ids,
        rw (anchored_index, found) refl,
        (
          λ x' id' b r c. ground (arith, found, index_or_zero-elem id ids),
          λ x' id' b. ground arith,
          λ h k. ground arith,
        ),
      )
    ]
anchored_index-Beside none (some x) ids resolve_anchor total h =
    elim (Option-cases (resolve_anchor x)) [
      | inl unresolved ↦ absurd (total x unresolved)
      | inr (id, found) ↦ (
        index_past id ids,
        rw (anchored_index, found) refl,
        (
          λ x' id' b. ground arith,
          λ x' id' b r c.
              let same_id : id ≡ id' = ground (arith, found) in
              rw (sym same_id) (index_past-elem id ids (rw (same_id) c)),
          λ h k. ground arith,
        ),
      )
    ]

few : (p : Placement) → chosen_count p ≤ 1 → ltb 1 (chosen_count p) ≡ false
few p h = ground (arith, h)

-- With at most one option passed, and where anchors are resolved, a placement has an index, which is
-- the one it means; with more than one it is refused.
pub placement_index-Means :
    (p : Placement) (ids : List String) (resolve_anchor : String → Option String)
    → ((reference : String) → resolve_anchor reference ≢ none)
    → (1 < chosen_count p → placement_index p ids resolve_anchor ≡ none)
      × (chosen_count p ≤ 1
          → (index : ℕ) × (placement_index p ids resolve_anchor ≡ some index)
            × Means p ids resolve_anchor index)
unfolding placement_index chosen_count
placement_index-Means p ids resolve_anchor total = (
  λ more. rw (lt→ltb 1 (chosen_count p) more) refl,
  λ one. elim (Bool-cases p.top) [
    | inl top ↦
        (0, rw (placement_index, few p one, top) refl, (λ t. refl, λ f. ground (arith, f, top)))
    | inr other ↦
        let (index, at, beside) =
          anchored_index-Beside p.before p.after ids resolve_anchor total (ground arith) in
        (
          index,
          rw (placement_index, few p one, other) at,
          (λ t. ground (arith, t, other), λ f. beside),
        )
  ],
)
