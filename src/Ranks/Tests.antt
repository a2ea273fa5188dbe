-- ===== src/Ranks/Tests.antt =====
-- The theorems of the ranks at a column of two rows.
use critical_path_api.Prelude.{
  ℕ, ◌≡◌, ◌≢◌, refl, true, false, List, [], ◌∷◌, none, some, map, arith, string_eq, length,
  Distinct, contains, ◌<◌, ◌≤◌,
}
use critical_path_api.SortKey.{Rising, above, below}
use critical_path_api.SortKey.TreeKeys.{
  TreePath, path_eq, tree_keys, tree_keys-Ok, tree_keys-before,
}
use critical_path_api.Ranks.{
  Ranked, Keyed, RankUpdate, under, neighbor_ids, neighbors_from_ids, as_ranked, by_rank, index_of,
  keyed_only, between, place_at_index, first_of,
}
use critical_path_api.Ranks.Drops.{
  neighbors_at_index, place_between_neighbors, reorder_rank_updates,
}
use critical_path_api.Ranks.Compare.{sort_keys}
use critical_path_api.Ranks.Collation.{by_codes}
use critical_path_api.Ranks.Place.{insert_at, RoomBefore, place_at_index-Rising}
use critical_path_api.Ranks.Anchors.{neighbors_from_ids-neighbor_ids}
use critical_path_api.Ranks.Slots.{place_between_neighbors-neighbors_at_index}
use critical_path_api.Ranks.Updates.{ids_of, new_keys, others, reorder_rank_updates-Rising}
use critical_path_api.Ranks.Positions.{
  Placement, chosen_count, keys_for_placement, keys_for_index, by_rank_keyed,
}
use critical_path_api.Ranks.Meant.{Means}
use critical_path_api.Ranks.Placements.{keys_for_placement-Rising, place_at_index-keys_for_index}

abbrev upper_card : Keyed TreePath
upper_card = record { id = "a"; sort_key = [] }

abbrev lower_card : Keyed TreePath
lower_card = record { id = "b"; sort_key = true ∷ [] }

abbrev column : List (Keyed TreePath)
column = upper_card ∷ lower_card ∷ []

abbrev unkeyed : Ranked TreePath
unkeyed = record { id = "c"; sort_key = none }

column-Rising : Rising tree_keys none (sort_keys column) none
unfolding above below
column-Rising = (refl, refl, (refl, refl, tt))

-- The key between two cards is the one that is right of the upper and left of the lower.
middle_key : place_at_index tree_keys by_codes column 1 ≡ some (true ∷ false ∷ [])
unfolding place_at_index first_of between
middle_key = refl

place_at_index-Rising_example :
    (k : TreePath) × (place_at_index tree_keys by_codes column 1 ≡ some k)
    × Rising tree_keys none (insert_at (sort_keys column) 1 (k ∷ [])) none
place_at_index-Rising_example =
    place_at_index-Rising tree_keys tree_keys-Ok by_codes column 1 column-Rising
      (tree_keys-before [])

neighbors_from_ids-neighbor_ids_example :
    (neighbors_from_ids (neighbor_ids (under "a" none)).0 (neighbor_ids (under "a" none)).1
      ≡ under "a" none)
    × (neighbor_ids (neighbors_from_ids none (some "b")) ≡ (none, some "b"))
neighbors_from_ids-neighbor_ids_example =
    neighbors_from_ids-neighbor_ids (under "a" none) none (some "b")

ids_differ : Distinct (map (λ (item : Keyed TreePath). item.id) column)
unfolding contains
ids_differ = (refl, (refl, tt))

place_between_neighbors-neighbors_at_index_example :
    place_between_neighbors tree_keys by_codes column
      (neighbors_at_index tree_keys by_codes (map as_ranked column) 2)
    ≡ (place_at_index tree_keys by_codes column 2, true)
place_between_neighbors-neighbors_at_index_example =
    place_between_neighbors-neighbors_at_index tree_keys tree_keys-Ok by_codes column 2 ids_differ
      column-Rising

abbrev reordered : List (Ranked TreePath)
reordered = as_ranked upper_card ∷ unkeyed ∷ []

reorder_rank_updates-Rising_example :
    (index_of "c" (ids_of reordered) ≡ none
      → reorder_rank_updates tree_keys by_codes reordered "c" ≡ some [])
    × ((i : ℕ)
        → index_of "c" (ids_of reordered) ≡ some i
        → (length (keyed_only reordered) ≢ length reordered
            → (updates : List (RankUpdate TreePath)) × (reorder_rank_updates tree_keys by_codes
                  reordered "c"
                ≡ some updates)
              × (map (λ update. update.id) updates ≡ ids_of reordered)
              × Rising tree_keys none (new_keys updates) none)
          × (length (keyed_only reordered) ≡ length reordered
              → Rising tree_keys none (sort_keys (others reordered "c")) none
              → RoomBefore tree_keys tree_keys-Ok (sort_keys (others reordered "c"))
              → (k : TreePath) × (reorder_rank_updates tree_keys by_codes reordered "c"
                  ≡ some (record { id = "c"; sort_key = k } ∷ []))
                × Rising tree_keys none
                    (insert_at (sort_keys (others reordered "c")) i (k ∷ []))
                    none))
reorder_rank_updates-Rising_example =
    reorder_rank_updates-Rising tree_keys tree_keys-Ok by_codes reordered "c"

abbrev after_a : Placement
after_a = record { top = false; bottom = false; before = none; after = some "a" }

keys_for_placement-Rising_example :
    (1 < chosen_count after_a → keys_for_placement tree_keys after_a column some 2 ≡ none)
    × (chosen_count after_a ≤ 1
        → (fresh : List TreePath) × (index : ℕ) × (keys_for_placement tree_keys after_a column some
              2
            ≡ some fresh)
          × (length fresh ≡ 2)
          × Rising tree_keys none (insert_at (sort_keys column) index fresh) none
          × Means after_a (map (λ item. item.id) column) some index)
keys_for_placement-Rising_example =
    keys_for_placement-Rising tree_keys tree_keys-Ok after_a column some 2
      (λ reference. ground arith) column-Rising (tree_keys-before [])

place_at_index-keys_for_index_example :
    (by_rank tree_keys by_codes (as_ranked upper_card) (as_ranked lower_card)
      ≡ by_rank_keyed tree_keys by_codes upper_card lower_card)
    × (Rising tree_keys none (sort_keys column) none
        → place_at_index tree_keys by_codes column 1
          ≡ first_of (keys_for_index tree_keys column 1 1))
place_at_index-keys_for_index_example =
    place_at_index-keys_for_index tree_keys tree_keys-Ok by_codes upper_card lower_card column 1
