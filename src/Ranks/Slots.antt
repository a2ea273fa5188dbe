-- ===== src/Ranks/Slots.antt =====
-- A drop that is named by the cards around it lands where it was aimed.
use Prim.Native.String.{String}
use critical_path_api.Prelude.{
  ℕ, zero, suc, ◌≤◌, ◌≡◌, refl, inl, inr, true, false, List, [], ◌∷◌, none, some, map, Eq, arith,
  leb, length, get_elem?, length-map, le→leb, Distinct, Bool-cases, string_eq,
}
use critical_path_api.SortKey.{Keys, KeysOk, Rising}
use critical_path_api.Ranks.{
  Order, Keyed, under, over, at_end, neighbor_ids, neighbors_from_ids, as_ranked, anchor, key_of,
  better, extreme, first_of, append_run, append, prepend, between, place_at_index,
}
use critical_path_api.Ranks.Compare.{sort_keys}
use critical_path_api.Ranks.Place.{
  slot_key, neighbours, place_at_index-slot_key, get_elem-length, suc_positive, suc_less,
}
use critical_path_api.Ranks.Drops.{
  nearer, adjacent_sibling, place_between, is_append, place_between_neighbors, id_at,
  neighbors_at_index,
}
use critical_path_api.Ranks.Anchors.{
  ids, anchor-elem, id_at-elem, final, final-elem, lower-final, sibling-first, sibling-final,
}

module _ {ℓ} {K : Type ℓ} ⦃e : Eq K⦄ (keys : Keys K) (ok : KeysOk keys)
    (locale_compare : String → String → Order) where
  -- The slot at an index by the cards on its sides.
  slot_first :
      (x : Keyed K) (items : List (Keyed K))
      → neighbors_at_index keys locale_compare (map as_ranked (x ∷ items)) 0 ≡ over x.id
  unfolding neighbors_at_index id_at neighbors_from_ids as_ranked
  slot_first x items =
      let size : leb (suc (length (map as_ranked items))) 0 ≡ false = ground arith in
      rw (neighbors_at_index, size) refl

  slot_between :
      (items : List (Keyed K)) (i : ℕ) (p n : Keyed K)
      → leb (length items) (suc i) ≡ false
      → get_elem? items i ≡ some p
      → get_elem? items (suc i) ≡ some n
      → neighbors_at_index keys locale_compare (map as_ranked items) (suc i)
        ≡ under p.id (some n.id)
  unfolding neighbors_at_index id_at neighbors_from_ids as_ranked
  slot_between items i p n b at_p at_n =
      rw
        (
          neighbors_at_index,
          length-map as_ranked items,
          b,
          suc_positive i,
          id_at,
          suc_less i,
          id_at-elem items i p at_p,
          id_at-elem items (suc i) n at_n,
        )
        refl

  slot_under :
      (items : List (Keyed K)) (i : ℕ) (p : Keyed K)
      → leb (length items) (suc i) ≡ true
      → get_elem? items i ≡ some p
      → neighbors_at_index keys locale_compare (map as_ranked items) (suc i) ≡ under p.id none
  unfolding neighbors_at_index id_at neighbors_from_ids as_ranked
  slot_under items i p b at_p =
      rw
        (
          neighbors_at_index,
          length-map as_ranked items,
          b,
          suc_positive i,
          id_at,
          suc_less i,
          id_at-elem items i p at_p,
        )
        refl

  slot_past :
      (items : List (Keyed K)) (i : ℕ)
      → leb (length items) i ≡ true
      → neighbors_at_index keys locale_compare (map as_ranked items) (suc i) ≡ at_end
  unfolding neighbors_at_index id_at neighbors_from_ids as_ranked
  slot_past items i b =
      let size : length (map as_ranked items) ≤ i = ground (arith, length-map as_ranked items, b) in
      let past : leb (length items) (suc i) ≡ true = ground (arith, b) in
      rw
        (
          neighbors_at_index,
          length-map as_ranked items,
          past,
          suc_positive i,
          id_at,
          suc_less i,
          get_elem-length (map as_ranked items) i size,
        )
        refl

  placed_over :
      (x : Keyed K) (items : List (Keyed K))
      → Distinct (ids (x ∷ items))
      → Rising keys none (sort_keys (x ∷ items)) none
      → place_between_neighbors keys locale_compare (x ∷ items) (over x.id)
        ≡ (slot_key keys ok (sort_keys (x ∷ items)) 0, true)
  unfolding place_between_neighbors neighbor_ids is_append place_between adjacent_sibling nearer
      between prepend extreme better key_of as_ranked slot_key anchor first_of
  placed_over x items d r =
      let self : string_eq.beq x.id x.id ≡ true = (string_eq.beq_iff x.id x.id).1 refl in
      rw
        (
          place_between_neighbors,
          anchor-elem (x ∷ items) 0 x d refl,
          place_between,
          adjacent_sibling,
          self,
          sibling-first keys ok locale_compare x items x.sort_key (inl refl) r.2,
        )
        refl

  placed_under :
      (x : Keyed K) (items : List (Keyed K))
      → Distinct (ids (x ∷ items))
      → Rising keys none (sort_keys (x ∷ items)) none
      → place_between_neighbors keys locale_compare (x ∷ items) (under (final x items).id none)
        ≡ (slot_key keys ok (sort_keys (x ∷ items)) (suc (length items)), true)
  unfolding place_between_neighbors neighbor_ids is_append place_between adjacent_sibling between
      append append_run extreme better key_of as_ranked slot_key anchor first_of
  placed_under x items d r =
      let size : length (sort_keys items) ≤ length items =
        omega (arith, length-map (λ (x : Keyed K). x.sort_key) items) in
      rw
        (
          place_between_neighbors,
          anchor-elem (x ∷ items) (length items) (final x items) d (final-elem x items),
          place_between,
          adjacent_sibling,
          sibling-final keys ok locale_compare x items r.2,
          slot_key,
          lower-final keys ok locale_compare x items,
          get_elem-length (sort_keys items) (length items) size,
        )
        refl

  placed_between :
      (sorted : List (Keyed K)) (i j : ℕ) (p n : Keyed K)
      → Distinct (ids sorted)
      → get_elem? sorted i ≡ some p
      → get_elem? sorted j ≡ some n
      → keys.lt p.sort_key n.sort_key ≡ true
      → place_between_neighbors keys locale_compare sorted (under p.id (some n.id))
        ≡ (first_of (keys.generate (some p.sort_key) (some n.sort_key) 1), true)
  unfolding place_between_neighbors neighbor_ids is_append place_between between
  placed_between sorted i j p n d at_p at_n lt =
      rw
        (
          place_between_neighbors,
          anchor-elem sorted i p d at_p,
          anchor-elem sorted j n d at_n,
          place_between,
          between,
          lt,
        )
        refl

  -- For keys in a strict total order with room above every key, and rows whose keys rise and
  -- whose ids differ, the slot at an index, named by the cards on its sides, is found again: the
  -- placement between them is the one at the index, and it is exact.
  pub place_between_neighbors-neighbors_at_index :
      (sorted : List (Keyed K)) (index : ℕ)
      → Distinct (ids sorted)
      → Rising keys none (sort_keys sorted) none
      → place_between_neighbors keys locale_compare sorted
          (neighbors_at_index keys locale_compare (map as_ranked sorted) index)
        ≡ (place_at_index keys locale_compare sorted index, true)
  unfolding place_between_neighbors neighbors_at_index id_at neighbors_from_ids neighbor_ids
      is_append place_between place_at_index anchor slot_key
  place_between_neighbors-neighbors_at_index [] zero d r = refl
  place_between_neighbors-neighbors_at_index [] (suc i) d r =
      rw (slot_past [] i (ground arith)) refl
  place_between_neighbors-neighbors_at_index (x ∷ items) zero d r =
      rw (slot_first x items, place_at_index-slot_key keys ok locale_compare (x ∷ items) 0 r)
        (placed_over x items d r)
  place_between_neighbors-neighbors_at_index (x ∷ items) (suc i) d r =
      elim (Bool-cases (leb (suc (length items)) i)) [
        | inl past ↦
            let b : leb (suc (length items)) (suc i) ≡ true = ground (arith, past) in
            rw
              (
                slot_past (x ∷ items) i past,
                place_at_index,
                suc_positive (length items),
                suc_positive i,
                b,
              )
              refl
        | inr near ↦ elim (Bool-cases (leb (suc (length items)) (suc i))) [
          | inl b ↦
              let last : i ≡ length items = ground (arith, near, b) in
              rw
                (
                  last,
                  slot_under (x ∷ items) (length items) (final x items) (le→leb _ _ (omega arith))
                      (final-elem x items),
                  place_at_index-slot_key keys ok locale_compare (x ∷ items) (suc (length items)) r,
                )
                (placed_under x items d r)
          | inr b ↦
              let (p, n, at_p, at_n, low, high, lt) = neighbours keys ok none (x ∷ items) i b r in
              rw
                (
                  slot_between (x ∷ items) i p n b at_p at_n,
                  place_at_index-slot_key keys ok locale_compare (x ∷ items) (suc i) r,
                  slot_key,
                  low,
                  high,
                )
                (placed_between (x ∷ items) i (suc i) p n d at_p at_n lt)
        ]
      ]
