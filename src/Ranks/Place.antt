-- ===== src/Ranks/Place.antt =====
-- A row placed at an index of ranks.ts lands there.
use Prim.Native.String.{String}
use critical_path_api.Prelude.{
  ℕ, zero, suc, ◌-◌, ◌≤◌, ◌≡◌, ◌≢◌, refl, sym, ap, ◌∙◌, subst, inl, inr, true, false, List, [], ◌∷◌,
  ◌++◌, Option, none, some, Eq, arith, length, get_elem?, take, drop, leb, ◌==◌, Bool-cases,
  Option-cases, length-map,
}
use critical_path_api.SortKey.{Keys, KeysOk, Rising, above, below}
use critical_path_api.Ranks.{
  Order, Keyed, as_ranked, key_of, better, extreme, first_of, append_run, append, prepend, between,
  place_at_index,
}
use critical_path_api.Ranks.Compare.{sort_keys, lower, extreme-highest, extreme-lowest}

pub suc_positive : (i : ℕ) → (suc i == 0) ≡ false
suc_positive i = ground arith

pub suc_less : (i : ℕ) → suc i - 1 ≡ i
suc_less i = omega arith

module _ {ℓ} {K : Type ℓ} where
  pub lower-length :
      (a : Option K) (ks : List K) (i : ℕ) → length ks ≤ i → lower a ks i ≡ lower a ks (length ks)
  lower-length a [] zero h = refl
  lower-length a [] (suc i) h = refl
  lower-length a (k ∷ ks) zero h = ground arith
  lower-length a (k ∷ ks) (suc i) h = lower-length (some k) ks i (omega (arith, h))

  pub get_elem-length : (ks : List K) (i : ℕ) → length ks ≤ i → get_elem? ks i ≡ none
  get_elem-length [] i h = refl
  get_elem-length (k ∷ ks) zero h = ground arith
  get_elem-length (k ∷ ks) (suc i) h = get_elem-length ks i (omega (arith, h))

  -- The keys of the rows with a run of keys put in at a place.
  abbrev pub insert_at : List K → ℕ → List K → List K
  insert_at ks i fresh = take i ks ++ fresh ++ drop i ks

  pub single : (fresh : List K) → length fresh ≡ 1 → (k : K) × (fresh ≡ k ∷ [])
  single [] h = ground arith
  single (k ∷ []) h = (k, refl)
  single (k ∷ j ∷ fresh) h = ground arith

module _ {ℓ} {K : Type ℓ} ⦃e : Eq K⦄ (keys : Keys K) (ok : KeysOk keys) where
  -- The key that is asked for between the rows on the sides of a place.
  unfoldable pub slot_key : List K → ℕ → Option K
  slot_key ks i = first_of (keys.generate (lower none ks i) (get_elem? ks i) 1)

  -- Two rows that follow each other.
  pub neighbours :
      (a : Option K) (items : List (Keyed K)) (i : ℕ)
      → leb (length items) (suc i) ≡ false
      → Rising keys a (sort_keys items) none
      → (x : Keyed K) × (y : Keyed K) × (get_elem? items i ≡ some x)
        × (get_elem? items (suc i) ≡ some y)
        × (lower a (sort_keys items) (suc i) ≡ some x.sort_key)
        × (get_elem? (sort_keys items) (suc i) ≡ some y.sort_key)
        × (keys.lt x.sort_key y.sort_key ≡ true)
  unfolding above
  neighbours a [] i h r = ground arith
  neighbours a (x ∷ []) i h r = ground arith
  neighbours a (x ∷ y ∷ items) zero h r = (x, y, refl, refl, refl, refl, r.2.0)
  neighbours a (x ∷ y ∷ items) (suc i) h r =
      neighbours (some x.sort_key) (y ∷ items) i (ground arith) r.2

  not_empty : (items : List (Keyed K)) → (suc (length items) == 0) ≡ false
  not_empty items = suc_positive (length items)

  append-Rising :
      (a : Option K) (fresh : List K) (ks : List K)
      → Rising keys a fresh (get_elem? ks 0)
      → Rising keys a ks none
      → Rising keys a (fresh ++ ks) none
  unfolding above below
  append-Rising a [] ks f r = r
  append-Rising a (k ∷ fresh) [] f r = (f.0, refl, append-Rising (some k) fresh [] f.2 tt)
  append-Rising a (k ∷ fresh) (x ∷ ks) f r =
      (f.0, refl, append-Rising (some k) fresh (x ∷ ks) f.2 (f.1, refl, r.2))

  pub insert_at-Rising :
      (a : Option K) (ks : List K) (i : ℕ) (fresh : List K)
      → Rising keys a ks none
      → Rising keys (lower a ks i) fresh (get_elem? ks i)
      → Rising keys a (insert_at ks i fresh) none
  insert_at-Rising a ks zero fresh r f = append-Rising a fresh ks f r
  insert_at-Rising a [] (suc i) fresh r f = append-Rising a fresh [] f tt
  insert_at-Rising a (k ∷ ks) (suc i) fresh r f =
      (r.0, r.1, insert_at-Rising (some k) ks i fresh r.2 f)

  lower-below :
      (k : K) (ks : List K) (i : ℕ)
      → Rising keys (some k) ks none
      → (p : K) × (lower (some k) ks i ≡ some p) × (below keys p (get_elem? ks i) ≡ true)
  unfolding above below
  lower-below k [] zero r = (k, refl, refl)
  lower-below k [] (suc i) r = (k, refl, refl)
  lower-below k (x ∷ ks) zero r = (k, refl, r.0)
  lower-below k (x ∷ ks) (suc i) r = lower-below x ks i r.2

  -- There is room before a key. The package has keys without room before them.
  abbrev pub RoomBefore : List K → Type ℓ
  RoomBefore [] = Unit {ℓ}
  RoomBefore (k ∷ ks) = (n : ℕ) → keys.generate none (some k) n ≢ none

  generate-slot :
      (ks : List K) (i n : ℕ)
      → Rising keys none ks none
      → RoomBefore ks
      → keys.generate (lower none ks i) (get_elem? ks i) n ≢ none
  generate-slot [] zero n r room = ok.generate_first n
  generate-slot [] (suc i) n r room = ok.generate_first n
  generate-slot (k ∷ ks) zero n r room = room n
  generate-slot (k ∷ ks) (suc i) n r room =
      let (p, low, under) = lower-below k ks i r.2 in
      rw (low) (ok.generate_above p (get_elem? ks i) n under)

  -- A run of keys asked for at a place is given, and with it the keys still rise.
  pub slot_run :
      (ks : List K) (i n : ℕ)
      → Rising keys none ks none
      → RoomBefore ks
      → (fresh : List K) × (keys.generate (lower none ks i) (get_elem? ks i) n ≡ some fresh)
        × (length fresh ≡ n)
        × Rising keys none (insert_at ks i fresh) none
  slot_run ks i n r room =
      elim (Option-cases (keys.generate (lower none ks i) (get_elem? ks i) n)) [
        | inl refused ↦ absurd (generate-slot ks i n r room refused)
        | inr (fresh, given) ↦
            let (size, rising) =
              ok.generate_rising (lower none ks i) (get_elem? ks i) n fresh given in
            (fresh, given, size, insert_at-Rising none ks i fresh r rising)
      ]

  module _ (locale_compare : String → String → Order) where
    -- Where the keys of the rows rise, the key of a place is asked for between the rows on its sides.
    pub place_at_index-slot_key :
        (sorted : List (Keyed K)) (index : ℕ)
        → Rising keys none (sort_keys sorted) none
        → place_at_index keys locale_compare sorted index ≡ slot_key (sort_keys sorted) index
    unfolding place_at_index append prepend append_run slot_key between extreme better key_of
        as_ranked
    place_at_index-slot_key [] zero r = refl
    place_at_index-slot_key [] (suc i) r = refl
    place_at_index-slot_key (x ∷ items) zero r =
        ground (arith, extreme-lowest keys ok locale_compare (x ∷ items) r)
    place_at_index-slot_key (x ∷ items) (suc i) r =
        elim (Bool-cases (leb (length (x ∷ items)) (suc i))) [
          | inl b ↦
              let size : length (sort_keys (x ∷ items)) ≡ suc (length items) =
                length-map (λ (x : Keyed K). x.sort_key) (x ∷ items) in
              let le : length (sort_keys (x ∷ items)) ≤ suc i = ground (arith, b, size) in
              rw (not_empty items, suc_positive i, b)
                (ap (λ a. first_of (keys.generate a none 1))
                    (extreme-highest keys ok locale_compare (x ∷ items) r
                      ∙ ap (lower none (sort_keys (x ∷ items))) (sym size)
                      ∙ sym (lower-length none (sort_keys (x ∷ items)) (suc i) le))
                  ∙ ap
                      (λ b.
                        first_of (keys.generate (lower none (sort_keys (x ∷ items)) (suc i)) b 1))
                      (sym (get_elem-length (sort_keys (x ∷ items)) (suc i) le)))
          | inr b ↦
              let (p, n, at_p, at_n, low, high, lt) = neighbours none (x ∷ items) i b r in
              rw
                (
                  not_empty items,
                  suc_positive i,
                  b,
                  suc_less i,
                  at_p,
                  at_n,
                  between,
                  slot_key,
                  low,
                  high,
                  lt,
                )
                refl
        ]

    -- For keys in a strict total order with room above every key, where the keys of the rows
    -- rise and there is room before the first of them, a row placed at an index gets a key with
    -- which the keys rise again, the row being at that index.
    pub place_at_index-Rising :
        (sorted : List (Keyed K)) (index : ℕ)
        → Rising keys none (sort_keys sorted) none
        → RoomBefore (sort_keys sorted)
        → (k : K) × (place_at_index keys locale_compare sorted index ≡ some k)
          × Rising keys none (insert_at (sort_keys sorted) index (k ∷ [])) none
    unfolding slot_key first_of
    place_at_index-Rising sorted index r room =
        let (fresh, given, size, rising) = slot_run (sort_keys sorted) index 1 r room in
        let (k, one) = single fresh size in
        (
          k,
          place_at_index-slot_key sorted index r ∙ rw (given, slot_key, one) refl,
          subst (λ fresh. Rising keys none (insert_at (sort_keys sorted) index fresh) none) one
              rising,
        )
