-- ===== src/Ranks/Placements.antt =====
-- A placement of cli/src/positions.ts has the index that it means, its rows land there, and the web
-- client places rows alike.
use Prim.Native.String.{String}
use critical_path_api.Prelude.{
  ℕ, zero, suc, ◌-◌, ◌≤◌, ◌≡◌, ◌≢◌, refl, sym, ap, ◌∙◌, inl, inr, false, List, [], ◌∷◌, Option,
  none, some, map, Eq, arith, length, get_elem?, leb, Bool-cases, length-map, string_eq, ◌<◌,
}
use critical_path_api.SortKey.{Keys, KeysOk, Rising}
use critical_path_api.Ranks.{
  Order, Keyed, as_ranked, compare_keys, by_rank, first_of, place_at_index,
}
use critical_path_api.Ranks.Compare.{sort_keys, lower}
use critical_path_api.Ranks.Place.{
  RoomBefore, insert_at, slot_run, slot_key, place_at_index-slot_key, lower-length, get_elem-length,
  suc_positive, suc_less,
}
use critical_path_api.Ranks.Positions.{
  Placement, given, chosen_count, key_at, keys_for_index, keys_for_placement, by_rank_keyed,
}
use critical_path_api.Ranks.Meant.{Means, placement_index-Means}

module _ {ℓ} {K : Type ℓ} ⦃e : Eq K⦄ (keys : Keys K) where
  key_at-elem : (items : List (Keyed K)) (i : ℕ) → key_at items i ≡ get_elem? (sort_keys items) i
  unfolding key_at
  key_at-elem [] i = refl
  key_at-elem (item ∷ items) zero = refl
  key_at-elem (item ∷ items) (suc i) = key_at-elem items i

  lower-elem :
      (a : Option K) (ks : List K) (i : ℕ) → suc i ≤ length ks → lower a ks (suc i) ≡ get_elem? ks i
  lower-elem a [] i h = ground arith
  lower-elem a (k ∷ ks) zero h = refl
  lower-elem a (k ∷ ks) (suc i) h = lower-elem (some k) ks i (omega (arith, h))

  generate_eq :
      (a b a' b' : Option K) (count : ℕ)
      → a ≡ a'
      → b ≡ b'
      → keys.generate a b count ≡ keys.generate a' b' count
  generate_eq a b a' b' count p q =
      ap (λ a. keys.generate a b count) p ∙ ap (λ b. keys.generate a' b count) q

  within :
      (x : Keyed K) (items : List (Keyed K)) (index count : ℕ)
      → leb (suc (length items)) index ≡ false
      → keys_for_index keys (x ∷ items) index count
        ≡ keys.generate
            (lower none (sort_keys (x ∷ items)) index)
            (get_elem? (sort_keys (x ∷ items)) index)
            count
  unfolding keys_for_index
  within x items zero count b =
      rw (suc_positive (length items), b)
        (generate_eq _ _ _ _ count refl (key_at-elem (x ∷ items) 0))
  within x items (suc i) count b =
      let ks : List K = sort_keys (x ∷ items) in
      let size : length ks ≡ suc (length items) =
        ap suc (length-map (λ (x : Keyed K). x.sort_key) items) in
      rw (suc_positive (length items), b, suc_positive i)
        (generate_eq _ _ _ _ count
          (ap (key_at (x ∷ items)) (suc_less i)
            ∙ key_at-elem (x ∷ items) i
            ∙ sym (lower-elem none ks i (ground (arith, size, b))))
          (key_at-elem (x ∷ items) (suc i)))

  -- The keys of an index are asked for between the rows on its sides.
  keys_for_index-generate :
      (sorted : List (Keyed K)) (index count : ℕ)
      → keys_for_index keys sorted index count
        ≡ keys.generate
            (lower none (sort_keys sorted) index)
            (get_elem? (sort_keys sorted) index)
            count
  unfolding keys_for_index
  keys_for_index-generate [] zero count = refl
  keys_for_index-generate [] (suc i) count = refl
  keys_for_index-generate (x ∷ items) index count =
      let ks : List K = sort_keys (x ∷ items) in
      let size : length ks ≡ suc (length items) =
        ap suc (length-map (λ (x : Keyed K). x.sort_key) items) in
      elim (Bool-cases (leb (suc (length items)) index)) [
        | inl b ↦
            let le : length ks ≤ index = ground (arith, b, size) in
            let last : key_at (x ∷ items) (suc (length items) - 1) ≡ lower none ks index =
              ap (key_at (x ∷ items)) (suc_less (length items))
              ∙ key_at-elem (x ∷ items) (length items)
              ∙ sym (lower-elem none ks (length items) (omega (arith, size)))
              ∙ ap (lower none ks) (sym size)
              ∙ sym (lower-length none ks index le) in
            rw (suc_positive (length items), b)
              (generate_eq _ _ _ _ count last (sym (get_elem-length ks index le)))
        | inr b ↦ within x items index count b
      ]

module _ {ℓ} {K : Type ℓ} ⦃e : Eq K⦄ (keys : Keys K) (ok : KeysOk keys) where
  -- For keys in a strict total order with room above every key, where the keys of the rows rise,
  -- there is room before the first of them and anchors are resolved, a placement with more than
  -- one option is refused, and one with at most one gives as many keys as asked for, with which
  -- the keys rise again, the new ones being at the index that the placement means.
  pub keys_for_placement-Rising :
      (p : Placement) (sorted : List (Keyed K)) (resolve_anchor : String → Option String)
      (count : ℕ)
      → ((reference : String) → resolve_anchor reference ≢ none)
      → Rising keys none (sort_keys sorted) none
      → RoomBefore keys ok (sort_keys sorted)
      → (1 < chosen_count p → keys_for_placement keys p sorted resolve_anchor count ≡ none)
        × (chosen_count p ≤ 1
            → (fresh : List K) × (index : ℕ) × (keys_for_placement keys p sorted resolve_anchor
                  count
                ≡ some fresh)
              × (length fresh ≡ count)
              × Rising keys none (insert_at (sort_keys sorted) index fresh) none
              × Means p (map (λ item. item.id) sorted) resolve_anchor index)
  unfolding keys_for_placement
  keys_for_placement-Rising p sorted resolve_anchor count total r room =
      let (refused, placed) =
        placement_index-Means p (map (λ item. item.id) sorted) resolve_anchor total in
      (
        λ more. rw (keys_for_placement, refused more) refl,
        λ one.
            let (index, at, means) = placed one in
            let (fresh, given, size, rising) =
              slot_run keys ok (sort_keys sorted) index count r room in
            (
              fresh,
              index,
              rw (keys_for_placement, at) (keys_for_index-generate keys sorted index count ∙ given),
              size,
              rising,
              means,
            ),
      )

  module _ (locale_compare : String → String → Order) where
    -- For keys in a strict total order with room above every key, the command line compares
    -- keyed rows as the web client does, and where the keys of the rows rise, it gives a row
    -- that is put at an index the same key.
    pub place_at_index-keys_for_index :
        (a b : Keyed K) (sorted : List (Keyed K)) (index : ℕ)
        → (by_rank keys locale_compare (as_ranked a) (as_ranked b)
            ≡ by_rank_keyed keys locale_compare a b)
          × (Rising keys none (sort_keys sorted) none
              → place_at_index keys locale_compare sorted index
                ≡ first_of (keys_for_index keys sorted index 1))
    unfolding by_rank as_ranked compare_keys by_rank_keyed slot_key
    place_at_index-keys_for_index a b sorted index = (
      ground (
        arith,
        e.beq_iff a.sort_key b.sort_key,
        ok.lt_irrefl a.sort_key,
        ok.lt_total a.sort_key b.sort_key,
        ok.lt_trans a.sort_key b.sort_key a.sort_key,
      ),
      λ r.
          place_at_index-slot_key keys ok locale_compare sorted index r
          ∙ ap first_of (sym (keys_for_index-generate keys sorted index 1)),
    )
