-- ===== src/SortKey/Resolve.antt =====
-- What `resolveSortKey` of sortKey.ts answers.
use critical_path_api.Prelude.{
  ◌≡◌, refl, subst, ◌∙◌, inl, inr, Bool, true, false, not, ◌||◌, List, [], ◌∷◌, Option, some, foldl,
  Eq, arith, length, take, filter, add, contains, contains-add, contains-take, contains-filter,
  filter-Distinct, Distinct, add-Distinct, Bool-cases, Option-cases,
}
use critical_path_api.SortKey.{
  Keys, KeysOk, Rising, above, below, insert_sorted, sort, keys_between, first, keys_at_or_above,
  rank_above, rank_in, rank_at, resolve_sort_key,
}
use critical_path_api.SortKey.Between.{contains-insert_sorted, contains-sort, Sorted, sort-Sorted}

module _ {ℓ} {K : Type ℓ} ⦃e : Eq K⦄ (keys : Keys K) (ok : KeysOk keys) where
  contains-set :
      (set : List K) (xs : List K) (a : K)
      → contains (foldl (λ set key. add key set) set xs) a ≡ (contains set a || contains xs a)
  unfolding contains
  contains-set set [] a = ground arith
  contains-set set (x ∷ xs) a = ground (arith, contains-set (add x set) xs a, contains-add x a set)

  set-Distinct :
      (set : List K) (xs : List K) → Distinct set → Distinct (foldl (λ set key. add key set) set xs)
  set-Distinct set [] d = d
  set-Distinct set (x ∷ xs) d = set-Distinct (add x set) xs (add-Distinct x set d)

  insert_sorted-Distinct :
      (k : K) (xs : List K)
      → contains xs k ≡ false
      → Distinct xs
      → Distinct (insert_sorted keys k xs)
  unfolding insert_sorted contains
  insert_sorted-Distinct k [] h d = ground arith
  insert_sorted-Distinct k (x ∷ xs) h d = ground (
    arith,
    insert_sorted-Distinct k xs,
    contains-insert_sorted keys ok k xs x,
    e.beq_iff x k,
    e.beq_iff k x,
  )

  pub sort-Distinct : (xs : List K) → Distinct xs → Distinct (sort keys xs)
  unfolding sort
  sort-Distinct [] d = tt
  sort-Distinct (x ∷ xs) d =
      insert_sorted-Distinct x (sort keys xs) (contains-sort keys ok xs x ∙ d.0)
        (sort-Distinct xs d.1)

  -- A key that stands where it was asked to: at the request if that is free, else directly above.
  pub record Ranked (requested : K) (held : List K) (k : K) : Type ℓ where
    pub kept : contains held requested ≡ false → k ≡ requested
    pub moved : contains held requested ≡ true → keys.lt requested k ≡ true
    pub next : (x : K) → contains held x ≡ true → keys.lt requested x ≡ true → keys.lt k x ≡ true

  single : (ks : List K) → length ks ≡ 1 → (k : K) × (ks ≡ k ∷ [])
  single [] h = ground arith
  single (k ∷ []) h = (k, refl)
  single (k ∷ j ∷ ks) h = ground arith

  fresh_one :
      (requested : K) (ks : List K) (b : Option K)
      → (length ks ≡ 1) × Rising keys (some requested) ks b
      → (k : K) × (first keys ks ≡ some k) × (keys.lt requested k ≡ true) × (below keys k b ≡ true)
  unfolding above first
  fresh_one requested ks b (n, rising) =
      let (k, one) = single ks n in
      let up = subst (λ ks. Rising keys (some requested) ks b) one rising in
      (k, rw (one, first) refl, up.0, up.1)

  rank_above-fresh :
      (requested : K) (rest : List K)
      → below keys requested (first keys rest) ≡ true
      → (k : K) × (rank_above keys requested rest ≡ some k)
        × (keys.lt requested k ≡ true)
        × (below keys k (first keys rest) ≡ true)
  unfolding keys_between rank_above
  rank_above-fresh requested rest h =
      elim (Option-cases (keys.generate (some requested) (first keys rest) 1)) [
        | inl n ↦ ground (arith, ok.generate_above requested (first keys rest) 1 h n)
        | inr (ks, n) ↦
            let (k, one, up, down) =
              fresh_one requested ks (first keys rest)
                (ok.generate_rising (some requested) (first keys rest) 1 ks n) in
            (k, rw (n, rank_above) one, up, down)
      ]

  -- The keys of a sorted list without repetition behind its head are all above it.
  behind :
      (x : K) (rest : List K)
      → Sorted keys ok (x ∷ rest)
      → Distinct (x ∷ rest)
      → (a : K) → contains rest a ≡ true
      → keys.lt x a ≡ true
  behind x rest s d a h = ground (arith, s.0 a h, ok.lt_total x a, d.0, h)

  below-first :
      (x : K) (rest : List K)
      → Sorted keys ok (x ∷ rest)
      → Distinct (x ∷ rest)
      → below keys x (first keys rest) ≡ true
  unfolding below first contains
  below-first x [] s d = refl
  below-first x (y ∷ rest) s d = behind x (y ∷ rest) s d y (ground (arith, e.beq_iff y y))

  below-all :
      (k : K) (rest : List K)
      → Sorted keys ok rest
      → below keys k (first keys rest) ≡ true
      → (a : K) → contains rest a ≡ true
      → keys.lt k a ≡ true
  unfolding below first contains
  below-all k [] s h a c = ground arith
  below-all k (y ∷ rest) s h a c =
      ground (arith, s.0 a, e.beq_iff y a, ok.lt_total y a, ok.lt_trans k y a)

  rank_in-Ranked :
      (requested : K) (sorted : List K) (held : List K)
      → Sorted keys ok sorted
      → Distinct sorted
      → ((x : K) → contains sorted x ≡ contains held x)
      → ((x : K) → contains held x ≡ true → keys.lt x requested ≡ false)
      → (k : K) × (rank_in keys requested sorted ≡ some k) × Ranked requested held k
  unfolding rank_in contains
  rank_in-Ranked requested [] held s d same least = (
    requested,
    refl,
    record { kept = λ h. refl; moved = λ h. ground (arith, same requested); next = λ x h up. up },
  )
  rank_in-Ranked requested (lowest ∷ rest) held s d same least =
      elim (Bool-cases (e.beq lowest requested)) [
        | inl b ↦
            let is = (e.beq_iff lowest requested).0 b in
            let s' = subst (λ x. Sorted keys ok (x ∷ rest)) is s in
            let d' = subst (λ x. Distinct (x ∷ rest)) is d in
            let (k, r, up, down) =
              rank_above-fresh requested rest (below-first requested rest s' d') in
            (
              k,
              rw (b, rank_in) r,
              record {
                kept = λ h. ground (arith, same requested);
                moved = λ h. up;
                next = λ x h above_it.
                    below-all k rest s.1 down x
                      (ground (arith, same x, e.beq_iff lowest x, is, ok.lt_irrefl requested));
              },
            )
        | inr b ↦ (
          requested,
          rw (b, rank_in) refl,
          record {
            kept = λ h. refl;
            moved = λ h. ground (
              arith,
              same requested,
              same lowest,
              s.0 requested,
              least lowest,
              ok.lt_total requested lowest,
              e.beq_iff lowest requested,
              e.beq_iff lowest lowest,
            );
            next = λ x h up. up;
          },
        )
      ]

  -- `rankAt` against the keys that it is given, none of which is below the request.
  pub rank_at-Ranked :
      (requested : K) (held : List K)
      → ((x : K) → contains held x ≡ true → keys.lt x requested ≡ false)
      → (k : K) × (rank_at keys requested held ≡ some k) × Ranked requested held k
  unfolding rank_at contains
  rank_at-Ranked requested held least =
      let set = foldl (λ set key. add key set) [] held in
      rank_in-Ranked requested (sort keys set) held (sort-Sorted keys ok set)
        (sort-Distinct set (set-Distinct [] held tt))
        (λ x. contains-sort keys ok set x ∙ contains-set [] held x) least

  -- The two lowest keys decide as all of them would.
  take-Ranked :
      (requested k : K) (sorted : List K)
      → Sorted keys ok sorted
      → Distinct sorted
      → ((x : K) → contains sorted x ≡ true → keys.lt x requested ≡ false)
      → Ranked requested (take 2 sorted) k
      → Ranked requested sorted k
  unfolding contains
  take-Ranked requested k [] s d least r = r
  take-Ranked requested k (t ∷ []) s d least r = r
  take-Ranked requested k (t ∷ u ∷ rest) s d least r = record {
    kept = λ h. ground (arith, r.kept, h);
    moved = λ h. ground (
      arith,
      r.moved,
      s.0 requested,
      least t,
      ok.lt_total requested t,
      e.beq_iff t requested,
      e.beq_iff t t,
    );
    next = λ x h up. elim (Bool-cases (e.beq t requested)) [
      | inl b ↦ ground (
        arith,
        behind t (u ∷ rest) s d u,
        r.next u,
        s.1.0 x,
        ok.lt_total u x,
        ok.lt_trans k u x,
        e.beq_iff u x,
        e.beq_iff t x,
        ok.lt_irrefl x,
        e.beq_iff t requested,
        e.beq_iff u u,
      )
      | inr b ↦ ground (
        arith,
        r.kept,
        s.0 u,
        least t,
        ok.lt_total t requested,
        ok.lt_total requested t,
        e.beq_iff u requested,
        e.beq_iff t requested,
        e.beq_iff t t,
        e.beq_iff u u,
      )
    ];
  }

  within-Ranked :
      (requested k : K) (scope : List K)
      → Ranked requested (sort keys (filter (λ key. not (keys.lt key requested)) scope)) k
      → Ranked requested scope k
  within-Ranked requested k scope r =
      let at_or_above : K → Bool = λ key. not (keys.lt key requested) in
      let same = λ (x : K).
        contains-sort keys ok (filter at_or_above scope) x ∙ contains-filter at_or_above scope x in
      record {
        kept = λ h. r.kept (ground (arith, same requested));
        moved = λ h. r.moved (ground (arith, same requested, ok.lt_irrefl requested));
        next = λ x h up.
            r.next x (ground (arith, same x, ok.lt_irrefl x, ok.lt_trans x requested x)) up;
      }

  -- Where keys are in a strict total order with room above every key, and no two rows of the scope
  -- hold the same key, a request is always answered: with itself if no row holds it, and else with
  -- a key above it and below every key that is above it.
  pub resolve_sort_key-Ranked :
      (scope : List K) (requested : K)
      → Distinct scope
      → (k : K) × (resolve_sort_key keys scope requested ≡ some k) × Ranked requested scope k
  unfolding resolve_sort_key keys_at_or_above
  resolve_sort_key-Ranked scope requested d =
      let at_or_above : K → Bool = λ key. not (keys.lt key requested) in
      let sorted = sort keys (filter at_or_above scope) in
      let least : (x : K) → contains sorted x ≡ true → keys.lt x requested ≡ false = λ x h. ground (
        arith,
        contains-sort keys ok (filter at_or_above scope) x,
        contains-filter at_or_above scope x,
      ) in
      let (k, e', r) =
        rank_at-Ranked requested (take 2 sorted) (λ x h. least x (contains-take 2 sorted x h)) in
      (
        k,
        e',
        within-Ranked requested k scope (
            take-Ranked requested k sorted (sort-Sorted keys ok _)
              (sort-Distinct _ (filter-Distinct at_or_above scope d)) least r),
      )
