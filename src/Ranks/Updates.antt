-- ===== src/Ranks/Updates.antt =====
-- What a reorder of ranks.ts writes.
use Prim.Native.String.{String}
use critical_path_api.Prelude.{
  ℕ, ◌≡◌, ◌≢◌, refl, ap, subst, inl, inr, true, false, not, sym, List, [], ◌∷◌, none, some, map,
  filter, Eq, arith, ◌==◌, ==_iff, length, Option-cases, string_eq,
}
use critical_path_api.SortKey.{Keys, KeysOk, Rising}
use critical_path_api.Ranks.{Order, Ranked, Keyed, RankUpdate, keyed_only, index_of}
use critical_path_api.Ranks.Compare.{sort_keys}
use critical_path_api.Ranks.Place.{insert_at, RoomBefore, place_at_index-Rising}
use critical_path_api.Ranks.Drops.{stamp, restack, reorder_rank_updates}

module _ {ℓ} {K : Type ℓ} where
  abbrev pub ids_of : List (Ranked K) → List String
  ids_of items = map (λ item. item.id) items

  abbrev pub new_keys : List (RankUpdate K) → List K
  new_keys updates = map (λ update. update.sort_key) updates

  -- The rows that a moved row is put among.
  abbrev pub others : List (Ranked K) → String → List (Keyed K)
  others items moved = filter (λ item. not (string_eq.beq item.id moved)) (keyed_only items)

module _ {ℓ} {K : Type ℓ} ⦃e : Eq K⦄ (keys : Keys K) (ok : KeysOk keys)
    (locale_compare : String → String → Order) where
  new_keys-stamp :
      (items : List (Ranked K)) (fresh : List K)
      → length fresh ≡ length items
      → (new_keys (stamp keys locale_compare items fresh) ≡ fresh)
        × (map (λ update. update.id) (stamp keys locale_compare items fresh) ≡ ids_of items)
  unfolding stamp
  new_keys-stamp [] [] h = (refl, refl)
  new_keys-stamp [] (k ∷ fresh) h = ground arith
  new_keys-stamp (x ∷ items) [] h = ground arith
  new_keys-stamp (x ∷ items) (k ∷ fresh) h =
      let (ks, ids) = new_keys-stamp items fresh (ground (arith, h)) in
      (ap (λ ks. k ∷ ks) ks, ap (λ ids. x.id ∷ ids) ids)

  restack-Rising :
      (items : List (Ranked K))
      → (updates : List (RankUpdate K)) × (restack keys locale_compare items ≡ some updates)
        × (map (λ update. update.id) updates ≡ ids_of items)
        × Rising keys none (new_keys updates) none
  unfolding restack
  restack-Rising items = elim (Option-cases (keys.generate none none (length items))) [
    | inl refused ↦ absurd (ok.generate_first (length items) refused)
    | inr (fresh, given) ↦
        let (size, rising) = ok.generate_rising none none (length items) fresh given in
        let (ks, ids) = new_keys-stamp items fresh size in
        (
          stamp keys locale_compare items fresh,
          rw (restack, given) refl,
          ids,
          subst (λ ks. Rising keys none ks none) (sym ks) rising,
        )
  ]

  -- For keys in a strict total order with room above every key, a reorder writes nothing where
  -- the moved row is not among the rows; where a row has no key, it writes a key for each of the
  -- rows in their order, and the keys rise; where all have keys, and those of the rows but the
  -- moved one rise with room before them, it writes the moved row alone, and the keys rise with
  -- the new one at the index of the row.
  pub reorder_rank_updates-Rising :
      (items : List (Ranked K)) (moved : String)
      → (index_of moved (ids_of items) ≡ none
          → reorder_rank_updates keys locale_compare items moved ≡ some [])
        × ((i : ℕ)
            → index_of moved (ids_of items) ≡ some i
            → (length (keyed_only items) ≢ length items
                → (updates : List (RankUpdate K)) × (reorder_rank_updates keys locale_compare items
                      moved
                    ≡ some updates)
                  × (map (λ update. update.id) updates ≡ ids_of items)
                  × Rising keys none (new_keys updates) none)
              × (length (keyed_only items) ≡ length items
                  → Rising keys none (sort_keys (others items moved)) none
                  → RoomBefore keys ok (sort_keys (others items moved))
                  → (k : K) × (reorder_rank_updates keys locale_compare items moved
                      ≡ some (record { id = moved; sort_key = k } ∷ []))
                    × Rising keys none
                        (insert_at (sort_keys (others items moved)) i (k ∷ []))
                        none))
  unfolding reorder_rank_updates
  reorder_rank_updates-Rising items moved = (
    λ missing. rw (reorder_rank_updates, missing) refl,
    λ i at. (
      λ unkeyed.
          let (updates, made, ids, rising) = restack-Rising items in
          let test : (length (keyed_only items) == length items) ≡ false =
            ground (arith, ==_iff (length (keyed_only items)) (length items)) in
          (updates, rw (reorder_rank_updates, at, test) made, ids, rising),
      λ keyed r room.
          let (k, placed, rising) =
            place_at_index-Rising keys ok locale_compare (others items moved) i r room in
          let test : (length (keyed_only items) == length items) ≡ true =
            ground (arith, ==_iff (length (keyed_only items)) (length items)) in
          (k, rw (reorder_rank_updates, at, test, placed) refl, rising),
    ),
  )
