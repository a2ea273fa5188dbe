-- ===== src/Ranks/Anchors.antt =====
-- The cards around a place of ranks.ts, and the rows at the ends of a column.
use Prim.Native.String.{String}
use critical_path_api.Prelude.{
  ℕ, zero, suc, ◌≡◌, ◌⊎◌, refl, ap, inl, inr, true, false, List, [], ◌∷◌, Option, none, some, map,
  foldl, Eq, arith, length, get_elem?, Distinct, contains, find, Bool-cases, string_eq,
}
use critical_path_api.SortKey.{Keys, KeysOk, Rising, above}
use critical_path_api.Ranks.{
  Order, negative, positive, Keyed, Neighbors, under, over, at_end, neighbor_ids,
  neighbors_from_ids, as_ranked, card, anchor, compare_keys, by_rank,
}
use critical_path_api.Ranks.Compare.{sort_keys, lower}
use critical_path_api.Ranks.Drops.{nearer}

-- A slot is kept through the pair of ids that a queued move stores, and a pair through the slot.
pub neighbors_from_ids-neighbor_ids :
    (intent : Neighbors) (after before : Option String)
    → (neighbors_from_ids (neighbor_ids intent).0 (neighbor_ids intent).1 ≡ intent)
      × (neighbor_ids (neighbors_from_ids after before) ≡ (after, before))
unfolding neighbor_ids neighbors_from_ids
neighbors_from_ids-neighbor_ids intent after before = (keeps intent, gives after before)
  where
    keeps :
        (intent : Neighbors)
        → neighbors_from_ids (neighbor_ids intent).0 (neighbor_ids intent).1 ≡ intent
    keeps (under after before) = refl
    keeps (over before) = refl
    keeps at_end = refl

    gives :
        (after before : Option String)
        → neighbor_ids (neighbors_from_ids after before) ≡ (after, before)
    gives (some after) before = refl
    gives none (some before) = refl
    gives none none = refl

module _ {ℓ} {K : Type ℓ} where
  abbrev pub ids : List (Keyed K) → List String
  ids items = map (λ item. item.id) items

  value_or : Keyed K → Option (Keyed K) → Keyed K
  value_or a none = a
  value_or a (some b) = b

  some_inj : (a b : Keyed K) → some a ≡ some b → a ≡ b
  unfolding value_or
  some_inj a b h = ap (value_or a) h

  same_id : (x y : Keyed K) → some y ≡ some x → string_eq.beq y.id x.id ≡ true
  same_id x y h = (string_eq.beq_iff y.id x.id).1 (ap (λ (z : Keyed K). z.id) (some_inj y x h))

  contains-elem :
      (items : List (Keyed K)) (i : ℕ) (x : Keyed K)
      → get_elem? items i ≡ some x
      → contains (ids items) x.id ≡ true
  unfolding contains
  contains-elem [] i x h = ground arith
  contains-elem (y ∷ items) zero x h = ground (arith, same_id x y h)
  contains-elem (y ∷ items) (suc i) x h = ground (arith, contains-elem items i x h)

  pub anchor-elem :
      (items : List (Keyed K)) (i : ℕ) (x : Keyed K)
      → Distinct (ids items)
      → get_elem? items i ≡ some x
      → anchor (some x.id) items ≡ some x
  unfolding anchor card find
  anchor-elem [] i x d h = ground arith
  anchor-elem (y ∷ items) zero x d h = rw (same_id x y h) h
  anchor-elem (y ∷ items) (suc i) x d h =
      let test : string_eq.beq y.id x.id ≡ false =
        ground (arith, d.0, contains-elem items i x h, string_eq.beq_iff y.id x.id) in
      rw (test) (anchor-elem items i x d.1 h)

  pub id_at-elem :
      (items : List (Keyed K)) (i : ℕ) (x : Keyed K)
      → get_elem? items i ≡ some x
      → get_elem? (map as_ranked items) i ≡ some (as_ranked x)
  id_at-elem [] i x h = ground arith
  id_at-elem (y ∷ items) zero x h = ap (λ z. some (as_ranked z)) (some_inj y x h)
  id_at-elem (y ∷ items) (suc i) x h = id_at-elem items i x h

  unfoldable pub final : Keyed K → List (Keyed K) → Keyed K
  final x [] = x
  final x (y ∷ items) = final y items

  pub final-elem :
      (x : Keyed K) (items : List (Keyed K))
      → get_elem? (x ∷ items) (length items) ≡ some (final x items)
  unfolding final
  final-elem x [] = refl
  final-elem x (y ∷ items) = final-elem y items

module _ {ℓ} {K : Type ℓ} ⦃e : Eq K⦄ (keys : Keys K) (ok : KeysOk keys)
    (locale_compare : String → String → Order) where
  pub Rising-final :
      (a : K) (x : Keyed K) (items : List (Keyed K))
      → keys.lt a x.sort_key ≡ true
      → Rising keys (some x.sort_key) (sort_keys items) none
      → keys.lt a (final x items).sort_key ≡ true
  unfolding final above
  Rising-final a x [] h r = h
  Rising-final a x (y ∷ items) h r =
      Rising-final a y items (ok.lt_trans a x.sort_key y.sort_key h r.0) r.2

  pub lower-final :
      (x : Keyed K) (items : List (Keyed K))
      → lower (some x.sort_key) (sort_keys items) (length items) ≡ some (final x items).sort_key
  unfolding final
  lower-final x [] = refl
  lower-final x (y ∷ items) = lower-final y items

  -- No sibling is below the first row, and none above the last.
  pub sibling-first :
      (x : Keyed K) (items : List (Keyed K)) (a : K)
      → (a ≡ x.sort_key) ⊎ (keys.lt x.sort_key a ≡ true)
      → Rising keys (some a) (sort_keys items) none
      → foldl (nearer keys locale_compare x false) none items ≡ none
  unfolding nearer by_rank as_ranked compare_keys negative above
  sibling-first x [] a h r = refl
  sibling-first x (y ∷ items) a h r =
      let up : keys.lt x.sort_key y.sort_key ≡ true =
        ground (arith, ok.lt_trans x.sort_key a y.sort_key) in
      let apart : e.beq y.sort_key x.sort_key ≡ false =
        ground (arith, e.beq_iff y.sort_key x.sort_key, ok.lt_irrefl x.sort_key) in
      let down : keys.lt y.sort_key x.sort_key ≡ false =
        ground (arith, ok.lt_irrefl x.sort_key, ok.lt_trans x.sort_key y.sort_key x.sort_key) in
      elim (Bool-cases (string_eq.beq y.id x.id)) [
        | inl b ↦ rw (b) (sibling-first x items y.sort_key (inr up) r.2)
        | inr b ↦ rw (b, apart, down) (sibling-first x items y.sort_key (inr up) r.2)
      ]

  pub sibling-final :
      (x : Keyed K) (items : List (Keyed K))
      → Rising keys (some x.sort_key) (sort_keys items) none
      → foldl (nearer keys locale_compare (final x items) true) none (x ∷ items) ≡ none
  unfolding nearer by_rank as_ranked compare_keys positive above final
  sibling-final x [] r = rw ((string_eq.beq_iff x.id x.id).1 refl) refl
  sibling-final x (y ∷ items) r =
      let end : Keyed K = final y items in
      let up : keys.lt x.sort_key end.sort_key ≡ true = Rising-final x.sort_key y items r.0 r.2 in
      let apart : e.beq x.sort_key end.sort_key ≡ false =
        ground (arith, e.beq_iff x.sort_key end.sort_key, ok.lt_irrefl x.sort_key) in
      elim (Bool-cases (string_eq.beq x.id end.id)) [
        | inl b ↦ rw (b) (sibling-final y items r.2)
        | inr b ↦ rw (b, apart, up) (sibling-final y items r.2)
      ]
