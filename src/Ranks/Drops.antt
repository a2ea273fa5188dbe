-- ===== src/Ranks/Drops.antt =====
-- web/src/lib/ranks.ts: a drop as the cards around it, and the updates of a reorder.
use Prim.Native.String.{String}
use critical_path_api.Prelude.{
  ℕ, zero, suc, ◌-◌, Bool, true, false, not, List, [], ◌∷◌, Option, none, some, map, foldl, Eq,
  if◌then◌else◌, leb, ◌==◌, length, get_elem?, filter, string_eq,
}
use critical_path_api.SortKey.{Keys}
use critical_path_api.Ranks.{
  Order, negative, positive, Ranked, Keyed, RankUpdate, Neighbors, under, over, at_end,
  neighbor_ids, neighbors_from_ids, as_ranked, keyed_only, index_of, anchor, by_rank, extreme,
  append, between, place_at_index,
}

module _ {ℓ} {K : Type ℓ} ⦃e : Eq K⦄ (keys : Keys K)
    (locale_compare : String → String → Order) where
  -- The sibling next to an anchor: the step of the loop of `adjacentSibling`, and the loop.
  unfoldable pub nearer : Keyed K → Bool → Option (Keyed K) → Keyed K → Option (Keyed K)
  nearer anchor wants_higher best item =
      let order = by_rank keys locale_compare (as_ranked item) (as_ranked anchor) in
      if string_eq.beq item.id anchor.id
      then best
      else (if (if wants_higher then not (positive order) else not (negative order))
          then best
          else elim best [
            | none ↦ some item
            | some found ↦
                let order' = by_rank keys locale_compare (as_ranked item) (as_ranked found) in
                if (if wants_higher then negative order' else positive order')
                then some item
                else some found
          ])

  unfoldable pub adjacent_sibling : List (Keyed K) → Keyed K → Bool → Option (Keyed K)
  adjacent_sibling siblings anchor wants_higher = foldl (nearer anchor wants_higher) none siblings

  unfoldable pub place_between :
      List (Keyed K) → Bool → Option (Keyed K) → Option (Keyed K) → Option K × Bool
  place_between siblings append_asked (some after) (some before) =
      (between keys locale_compare (some after) (some before), true)
  place_between siblings append_asked (some after) none =
      (between keys locale_compare (some after) (adjacent_sibling siblings after true), true)
  place_between siblings append_asked none (some before) =
      (between keys locale_compare (adjacent_sibling siblings before false) (some before), true)
  place_between siblings append_asked none none =
      (append keys locale_compare siblings, append_asked)

  unfoldable pub is_append : Neighbors → Bool
  is_append (under after before) = false
  is_append (over before) = false
  is_append at_end = true

  -- The placement, and whether it is exact.
  unfoldable pub place_between_neighbors : List (Keyed K) → Neighbors → Option K × Bool
  place_between_neighbors siblings intent =
      let (after_id, before_id) = neighbor_ids intent in
      place_between siblings (is_append intent) (anchor after_id siblings)
        (anchor before_id siblings)

  unfoldable pub id_at : List (Ranked K) → ℕ → Option String
  id_at items index = elim (get_elem? items index) [ none ↦ none | some item ↦ some item.id ]

  unfoldable pub neighbors_at_index : List (Ranked K) → ℕ → Neighbors
  neighbors_at_index sorted index =
      neighbors_from_ids (if index == 0 then none else id_at sorted (index - 1))
        (if leb (length sorted) index then none else id_at sorted index)

  -- The lowest-ranked of the rows with a larger key than the card above the drop.
  unfoldable pub next_above : Keyed K → Option (Keyed K) → Keyed K → Option (Keyed K)
  next_above previous next item =
      if keys.lt previous.sort_key item.sort_key
      then elim next [
        | none ↦ some item
        | some found ↦
            if negative (by_rank keys locale_compare (as_ranked item) (as_ranked found))
            then some item
            else some found
      ]
      else next

  unfoldable pub id_of : Option (Keyed K) → Option String
  id_of none = none
  id_of (some item) = some item.id

  unfoldable pub ranked_id : Option (Ranked K) → Option String
  ranked_id none = none
  ranked_id (some item) = some item.id

  unfoldable pub neighbors_after_drop : List (Keyed K) → String → Option Neighbors
  neighbors_after_drop items moved_id =
      let others = filter (λ item. not (string_eq.beq item.id moved_id)) items in
      elim (index_of moved_id (map (λ item. item.id) items)) [
        | none ↦ none
        | some zero ↦ some (
            neighbors_from_ids none
              (ranked_id (extreme keys locale_compare (map as_ranked others) false)))
        | some (suc i) ↦ elim (get_elem? items i) [
          | none ↦ none
          | some previous ↦
              some (under previous.id (id_of (foldl (next_above previous) none others)))
        ]
      ]

  unfoldable pub stamp : List (Ranked K) → List K → List (RankUpdate K)
  stamp [] fresh = []
  stamp (item ∷ items) [] = []
  stamp (item ∷ items) (key ∷ fresh) = record { id = item.id; sort_key = key } ∷ stamp items fresh

  unfoldable pub restack : List (Ranked K) → Option (List (RankUpdate K))
  restack ordered_items = elim (keys.generate none none (length ordered_items)) [
    | none ↦ none
    | some fresh ↦ some (stamp ordered_items fresh)
  ]

  unfoldable pub reorder_rank_updates : List (Ranked K) → String → Option (List (RankUpdate K))
  reorder_rank_updates ordered_items moved_id =
      let keyed = keyed_only ordered_items in
      elim (index_of moved_id (map (λ item. item.id) ordered_items)) [
        | none ↦ some []
        | some index ↦
            if not (length keyed == length ordered_items)
            then restack ordered_items
            else elim (place_at_index keys locale_compare
                (filter (λ item. not (string_eq.beq item.id moved_id)) keyed) index) [
                  | none ↦ none
                  | some key ↦ some (record { id = moved_id; sort_key = key } ∷ [])
                ]
      ]
