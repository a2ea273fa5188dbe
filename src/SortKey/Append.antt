-- ===== src/SortKey/Append.antt =====
-- What `appendKeys` of sortKey.ts answers.
use critical_path_api.Prelude.{
  ℕ, ◌≡◌, ◌≢◌, refl, inl, inr, Bool, true, false, ◌||◌, List, [], ◌∷◌, Option, none, some, foldl,
  Eq, arith, length, contains, Option-cases,
}
use critical_path_api.SortKey.{
  Keys, KeysOk, Rising, above, below, keys_between, larger, max_key, append_keys,
}

module _ {ℓ} {K : Type ℓ} ⦃e : Eq K⦄ (keys : Keys K) (ok : KeysOk keys) where
  -- Is a key at or below the largest so far?
  unfoldable pub at_most : K → Option K → Bool
  at_most x none = false
  at_most x (some m) = e.beq x m || keys.lt x m

  at_most-larger :
      (x k : K) (m : Option K) → at_most x m ≡ true → at_most x (larger keys m k) ≡ true
  unfolding at_most larger
  at_most-larger x k none h = ground arith
  at_most-larger x k (some m) h = ground (arith, e.beq_iff x m, e.beq_iff x k, ok.lt_trans x m k)

  larger_self : (k : K) (m : Option K) → at_most k (larger keys m k) ≡ true
  unfolding at_most larger
  larger_self k none = ground (arith, e.beq_iff k k)
  larger_self k (some m) = ground (arith, e.beq_iff k k, e.beq_iff k m, ok.lt_total k m)

  pub at_most-max :
      (x : K) (scope : List K) (m : Option K)
      → (at_most x m || contains scope x) ≡ true
      → at_most x (foldl (larger keys) m scope) ≡ true
  unfolding contains
  at_most-max x [] m h = ground arith
  at_most-max x (k ∷ scope) m h =
      at_most-max x scope (larger keys m k)
        (ground (arith, at_most-larger x k m, larger_self k m, e.beq_iff k x))

  pub Rising-lower :
      (x : K) (m : Option K) (ks : List K)
      → at_most x m ≡ true
      → Rising keys m ks none
      → Rising keys (some x) ks none
  unfolding at_most above
  Rising-lower x none ks h r = ground arith
  Rising-lower x (some m) [] h r = tt
  Rising-lower x (some m) (k ∷ ks) h r =
      (ground (arith, r.0, e.beq_iff x m, ok.lt_trans x m k), r.1, r.2)

  generate-open : (m : Option K) (count : ℕ) → keys.generate m none count ≢ none
  unfolding below
  generate-open none count = ok.generate_first count
  generate-open (some a) count = ok.generate_above a none count refl

  pub appended :
      (m : Option K) (count : ℕ)
      → (ks : List K) × (keys_between keys m none count ≡ some ks)
        × (length ks ≡ count)
        × Rising keys m ks none
  unfolding keys_between
  appended m count = elim (Option-cases (keys.generate m none count)) [
    | inl n ↦ ground (arith, generate-open m count)
    | inr (ks, n) ↦ let (l, r) = ok.generate_rising m none count ks n in (ks, n, l, r)
  ]

  -- Where keys are in a strict total order with room above every key, as many keys as asked for are
  -- always given; they rise, and they are above every key of the scope.
  pub append_keys-Rising :
      (scope : List K) (count : ℕ)
      → (ks : List K) × (append_keys keys scope count ≡ some ks)
        × (length ks ≡ count)
        × ((x : K) → contains scope x ≡ true → Rising keys (some x) ks none)
  unfolding append_keys max_key
  append_keys-Rising scope count =
      let (ks, n, l, r) = appended (foldl (larger keys) none scope) count in
      (ks, n, l, λ x h. Rising-lower x _ ks (at_most-max x scope none (ground arith)) r)
