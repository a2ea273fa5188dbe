-- ===== src/SortKey/Batch.antt =====
-- What `resolveSortKeys` of sortKey.ts answers.
use critical_path_api.Prelude.{
  ℕ, zero, suc, ◌≡◌, refl, sym, subst, ◌∙◌, ap, inl, inr, true, false, ◌||◌, List, [], ◌∷◌, Option,
  none, some, Eq, arith, length, contains, Distinct, Bool-cases, Option-cases,
}
use critical_path_api.SortKey.{
  Keys, KeysOk, Rising, above, sort, max_key, claim_all, appending, fill, last, tail_key,
  resolve_sort_keys,
}
use critical_path_api.SortKey.Between.{contains-sort, Sorted, sort-Sorted}
use critical_path_api.SortKey.Append.{at_most, at_most-max, Rising-lower, appended}
use critical_path_api.SortKey.Claims.{present, Apart, claim_all-Claims}

module _ {ℓ} {K : Type ℓ} ⦃e : Eq K⦄ (keys : Keys K) (ok : KeysOk keys) where
  length-fill :
      (ranked : List (Option K)) (fresh : List K)
      → length fresh ≡ appending keys ranked
      → length (fill keys ranked fresh) ≡ length ranked
  unfolding fill appending
  length-fill [] fresh h = refl
  length-fill (some key ∷ ranked) fresh h = ap suc (length-fill ranked fresh h)
  length-fill (none ∷ ranked) (key ∷ fresh) h = ground (arith, length-fill ranked fresh)
  length-fill (none ∷ ranked) [] h = ground arith

  contains-fill :
      (ranked : List (Option K)) (fresh : List K) (x : K)
      → length fresh ≡ appending keys ranked
      → contains (fill keys ranked fresh) x
        ≡ (contains (present keys ok ranked) x || contains fresh x)
  unfolding fill appending present contains
  contains-fill [] [] x h = refl
  contains-fill [] (key ∷ fresh) x h = ground arith
  contains-fill (some key ∷ ranked) fresh x h = ground (arith, contains-fill ranked fresh x h)
  contains-fill (none ∷ ranked) (key ∷ fresh) x h = ground (arith, contains-fill ranked fresh x)
  contains-fill (none ∷ ranked) [] x h = ground arith

  fill-Distinct :
      (ranked : List (Option K)) (fresh : List K)
      → length fresh ≡ appending keys ranked
      → Distinct (present keys ok ranked)
      → Distinct fresh
      → Apart keys ok fresh (present keys ok ranked)
      → Distinct (fill keys ranked fresh)
  unfolding fill appending present contains
  fill-Distinct [] fresh h d f a = tt
  fill-Distinct (some key ∷ ranked) fresh h d f a = (
    ground (arith, contains-fill ranked fresh key h, d.0, a key, e.beq_iff key key),
    fill-Distinct ranked fresh h d.1 f (λ x c. ground (arith, a x c)),
  )
  fill-Distinct (none ∷ ranked) (key ∷ fresh) h d f a = (
    ground (arith, contains-fill ranked fresh key, a key, f.0, e.beq_iff key key),
    fill-Distinct ranked fresh (omega (arith, h)) d f.1 (λ x c. a x (ground (arith, c))),
  )
  fill-Distinct (none ∷ ranked) [] h d f a = ground arith

  -- Keys that rise from a key do not meet it, nor each other.
  Rising-new : (x : K) (ks : List K) → Rising keys (some x) ks none → contains ks x ≡ false
  unfolding above contains at_most
  Rising-new x [] r = refl
  Rising-new x (k ∷ ks) r = ground (
    arith,
    r.0,
    e.beq_iff k x,
    ok.lt_irrefl x,
    Rising-new x ks (Rising-lower keys ok x (some k) ks (ground (arith, r.0)) r.2),
  )

  Rising-Distinct : (a : Option K) (ks : List K) → Rising keys a ks none → Distinct ks
  Rising-Distinct a [] r = tt
  Rising-Distinct a (k ∷ ks) r = (Rising-new k ks r.2, Rising-Distinct (some k) ks r.2)

  at_most-lower :
      (x j : K) (m : Option K)
      → keys.lt j x ≡ false
      → at_most keys ok j m ≡ true
      → at_most keys ok x m ≡ true
  unfolding at_most
  at_most-lower x j none h a = ground arith
  at_most-lower x j (some m) h a =
      ground (arith, ok.lt_total x j, e.beq_iff j m, e.beq_iff x m, ok.lt_trans x j m)

  at_most-last :
      (ks : List K) (x : K)
      → Sorted keys ok ks
      → contains ks x ≡ true
      → at_most keys ok x (last keys ks) ≡ true
  unfolding last contains at_most
  at_most-last [] x s h = ground arith
  at_most-last (k ∷ []) x s h = ground (arith, e.beq_iff x k, e.beq_iff k x)
  at_most-last (k ∷ j ∷ ks) x s h = elim (Bool-cases (contains (j ∷ ks) x)) [
    | inl c ↦ at_most-last (j ∷ ks) x s.1 c
    | inr c ↦
        at_most-lower x j (last keys (j ∷ ks)) (ground (arith, s.0 j, e.beq_iff k x, e.beq_iff j j))
          (at_most-last (j ∷ ks) j s.1 (ground (arith, e.beq_iff j j)))
  ]

  -- The tail is no lower than any key of the scope and any claim.
  at_most-tail :
      (scope claimed : List K) (x : K)
      → (contains scope x || contains claimed x) ≡ true
      → at_most keys ok x (tail_key keys scope claimed) ≡ true
  unfolding tail_key max_key at_most contains
  at_most-tail scope claimed x h = elim (Option-cases (max_key keys scope)) [
    | inl n ↦
        rw (n, tail_key)
          (elim (Bool-cases (contains claimed x)) [
            | inl c ↦
                at_most-last (sort keys claimed) x (sort-Sorted keys ok claimed)
                  (contains-sort keys ok claimed x ∙ c)
            | inr c ↦ ground (
              arith,
              subst (λ m. at_most keys ok x m ≡ true) n
                  (at_most-max keys ok x scope none (ground arith)),
            )
          ])
    | inr (g, n) ↦
        let all = sort keys (g ∷ claimed) in
        let in_order = sort-Sorted keys ok (g ∷ claimed) in
        rw (n, tail_key)
          (elim (Bool-cases (contains claimed x)) [
            | inl c ↦
                at_most-last all x in_order (contains-sort keys ok (g ∷ claimed) x ∙ ground arith)
            | inr c ↦
                at_most-lower x g (last keys all)
                  (ground (
                    arith,
                    ok.lt_irrefl x,
                    ok.lt_trans x g x,
                    e.beq_iff x g,
                    subst (λ m. at_most keys ok x m ≡ true) n
                        (at_most-max keys ok x scope none (ground arith)),
                  ))
                  (at_most-last all g in_order
                    (contains-sort keys ok (g ∷ claimed) g ∙ ground (arith, e.beq_iff g g)))
          ])
  ]

  -- Fresh keys for the entries that are appended, if there are any.
  answer :
      (scope : List K) (requested ranked : List (Option K)) (claimed : List K)
      → (n : ℕ) → appending keys ranked ≡ n
      → claim_all keys scope [] requested ≡ some (ranked, claimed)
      → (fresh : List K) × (resolve_sort_keys keys scope requested ≡ some (fill keys ranked fresh))
        × (length fresh ≡ appending keys ranked)
        × Distinct fresh
        × ((x : K) → (contains scope x || contains claimed x) ≡ true → contains fresh x ≡ false)
  unfolding resolve_sort_keys contains
  answer scope requested ranked claimed zero none_left r =
      ([], rw (resolve_sort_keys, r, none_left) refl, sym none_left, tt, λ x h. refl)
  answer scope requested ranked claimed (suc n) left r =
      let tail = tail_key keys scope claimed in
      let (fresh, k, l, rising) = appended keys ok tail (suc n) in
      (
        fresh,
        rw (resolve_sort_keys, r, left, k) refl,
        l ∙ sym left,
        Rising-Distinct tail fresh rising,
        λ x h.
            Rising-new x fresh
              (Rising-lower keys ok x tail fresh (at_most-tail scope claimed x h) rising),
      )

  -- Where keys are in a strict total order with room above every key, and no two rows of the scope
  -- hold the same key, a run of requests is always answered, with one key for each; no two of
  -- these are the same, and no row of the scope holds one of them.
  pub resolve_sort_keys-Distinct :
      (scope : List K) (requested : List (Option K))
      → Distinct scope
      → (ks : List K) × (resolve_sort_keys keys scope requested ≡ some ks)
        × (length ks ≡ length requested)
        × Distinct ks
        × Apart keys ok ks scope
  unfolding contains
  resolve_sort_keys-Distinct scope requested d =
      let (ranked, claimed, r, c) = claim_all-Claims keys ok scope [] requested d in
      let (fresh, a, l, f, new) =
        answer scope requested ranked claimed (appending keys ranked) refl r in
      (
        fill keys ranked fresh,
        a,
        length-fill ranked fresh l ∙ c.whole,
        fill-Distinct ranked fresh l c.distinct f (λ x h. ground (arith, c.behind x, new x)),
        λ x h. ground (arith, contains-fill ranked fresh x l, c.free x, new x),
      )
