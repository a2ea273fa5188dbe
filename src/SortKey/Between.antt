-- ===== src/SortKey/Between.antt =====
-- Sorting keys, and the least key at or above another.
use critical_path_api.Prelude.{
  ◌≡◌, refl, inl, inr, true, false, ◌||◌, List, [], ◌∷◌, Eq, arith, contains, Bool-cases,
}
use critical_path_api.SortKey.{Keys, KeysOk, insert_sorted, sort}

module _ {ℓ} {K : Type ℓ} ⦃e : Eq K⦄ (keys : Keys K) (ok : KeysOk keys) where
  pub contains-insert_sorted :
      (k : K) (xs : List K) (a : K)
      → contains (insert_sorted keys k xs) a ≡ (e.beq k a || contains xs a)
  unfolding insert_sorted contains
  contains-insert_sorted k [] a = refl
  contains-insert_sorted k (x ∷ xs) a = ground (arith, contains-insert_sorted k xs a)

  pub contains-sort : (xs : List K) (a : K) → contains (sort keys xs) a ≡ contains xs a
  unfolding sort contains
  contains-sort [] a = refl
  contains-sort (x ∷ xs) a =
      ground (arith, contains-sort xs a, contains-insert_sorted x (sort keys xs) a)

  -- No key stands behind a larger one.
  abbrev pub Sorted : List K → Type ℓ
  Sorted [] = Unit {ℓ}
  Sorted (x ∷ xs) = ((a : K) → contains xs a ≡ true → keys.lt a x ≡ false) × Sorted xs

  insert_sorted-Sorted : (k : K) (xs : List K) → Sorted xs → Sorted (insert_sorted keys k xs)
  unfolding insert_sorted contains
  insert_sorted-Sorted k [] s = (λ a h. ground arith, tt)
  insert_sorted-Sorted k (x ∷ xs) s = elim (Bool-cases (keys.lt x k)) [
    | inl b ↦ rw (b) (
      λ a h. ground (
        arith,
        contains-insert_sorted k xs a,
        s.0 a,
        e.beq_iff k a,
        ok.lt_irrefl x,
        ok.lt_trans x k x,
      ),
      insert_sorted-Sorted k xs s.1,
    )
    | inr b ↦ rw (b) (
      λ a h.
          ground
            (arith, s.0 a, e.beq_iff x a, ok.lt_trans a k x, ok.lt_total x k, ok.lt_trans a x k),
      s,
    )
  ]

  pub sort-Sorted : (xs : List K) → Sorted (sort keys xs)
  unfolding sort
  sort-Sorted [] = tt
  sort-Sorted (x ∷ xs) = insert_sorted-Sorted x (sort keys xs) (sort-Sorted xs)
