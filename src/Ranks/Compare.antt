-- ===== src/Ranks/Compare.antt =====
-- The order of ranks.ts, and its extremes over rows whose keys rise.
use Prim.Native.String.{String}
use critical_path_api.Prelude.{
  ℕ, zero, suc, ◌≡◌, ◌⊎◌, inl, inr, refl, inl, inr, true, false, List, [], ◌∷◌, Option, none, some,
  map, foldl, Eq, arith, length, get_elem?, string_eq,
}
use critical_path_api.SortKey.{Keys, KeysOk, Rising, above}
use critical_path_api.Ranks.{
  Order, less, same, greater, negative, positive, Keyed, as_ranked, key_of, compare_keys, by_rank,
  better, extreme,
}

-- What `localeCompare` promises on ids: an order read from both sides, by which different ids can
-- be the same, as those that are canonically equivalent.
pub record Collates (locale_compare : String → String → Order) : Type 0 where
  pub compare_self : (a : String) → locale_compare a a ≡ same
  pub compare_flip : (a b : String) → positive (locale_compare a b) ≡ negative (locale_compare b a)
  pub compare_trans :
      (a b c : String)
      → negative (locale_compare a b) ≡ true
      → negative (locale_compare b c) ≡ true
      → negative (locale_compare a c) ≡ true

pub Order-cases : (o : Order) → (negative o ≡ false) → (positive o ≡ false) → o ≡ same
unfolding negative positive
Order-cases less h k = ground arith
Order-cases same h k = refl
Order-cases greater h k = ground arith

module _ {ℓ} {K : Type ℓ} where
  -- The keys of rows, and the key under a place: that of the row before it, or the bound.
  abbrev pub sort_keys : List (Keyed K) → List K
  sort_keys items = map (λ item. item.sort_key) items

  abbrev pub lower : Option K → List K → ℕ → Option K
  lower a ks zero = a
  lower a [] (suc i) = a
  lower a (k ∷ ks) (suc i) = lower (some k) ks i

module _ {ℓ} {K : Type ℓ} ⦃e : Eq K⦄ (keys : Keys K) (ok : KeysOk keys)
    (locale_compare : String → String → Order) where
  foldl-highest :
      (best : Keyed K) (items : List (Keyed K))
      → Rising keys (some best.sort_key) (sort_keys items) none
      → key_of
          (foldl (better keys locale_compare true) (some (as_ranked best)) (map as_ranked items))
        ≡ lower (some best.sort_key) (sort_keys items) (length items)
  unfolding better by_rank compare_keys as_ranked key_of negative above
  foldl-highest best [] r = refl
  foldl-highest best (item ∷ items) r = ground (
    arith,
    foldl-highest item items,
    ok.lt_irrefl item.sort_key,
    e.beq_iff best.sort_key item.sort_key,
  )

  foldl-lowest :
      (best : Keyed K) (items : List (Keyed K)) (a : K)
      → (a ≡ best.sort_key) ⊎ (keys.lt best.sort_key a ≡ true)
      → Rising keys (some a) (sort_keys items) none
      → key_of
          (foldl (better keys locale_compare false) (some (as_ranked best)) (map as_ranked items))
        ≡ some best.sort_key
  unfolding better by_rank compare_keys as_ranked key_of positive above
  foldl-lowest best [] a h r = refl
  foldl-lowest best (item ∷ items) a h r =
      let up : keys.lt best.sort_key item.sort_key ≡ true =
        ground (arith, ok.lt_trans best.sort_key a item.sort_key) in
      ground (
        arith,
        foldl-lowest best items item.sort_key (inr up),
        ok.lt_irrefl item.sort_key,
        e.beq_iff best.sort_key item.sort_key,
      )

  pub extreme-highest :
      (sorted : List (Keyed K))
      → Rising keys none (sort_keys sorted) none
      → key_of (extreme keys locale_compare (map as_ranked sorted) true)
        ≡ lower none (sort_keys sorted) (length sorted)
  unfolding extreme better key_of
  extreme-highest [] r = refl
  extreme-highest (item ∷ items) r = foldl-highest item items r.2

  pub extreme-lowest :
      (sorted : List (Keyed K))
      → Rising keys none (sort_keys sorted) none
      → key_of (extreme keys locale_compare (map as_ranked sorted) false)
        ≡ get_elem? (sort_keys sorted) 0
  unfolding extreme better key_of
  extreme-lowest [] r = refl
  extreme-lowest (item ∷ items) r = foldl-lowest item items item.sort_key (inl refl) r.2
