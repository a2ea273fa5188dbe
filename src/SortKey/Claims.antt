-- ===== src/SortKey/Claims.antt =====
-- The keys that `resolveSortKeys` of sortKey.ts claims one after the other.
use critical_path_api.Prelude.{
  suc, ◌≡◌, refl, ◌∙◌, ap, inl, inr, Bool, true, false, not, ◌&&◌, ◌||◌, List, [], ◌∷◌, ◌++◌,
  Option, none, some, Eq, arith, length, take, filter, contains, contains-append, contains-take,
  contains-filter, filter-Distinct, Distinct, Bool-cases,
}
use critical_path_api.SortKey.{Keys, KeysOk, sort, keys_at_or_above, rank_at, claim_all}
use critical_path_api.SortKey.Between.{contains-sort, Sorted, sort-Sorted}
use critical_path_api.SortKey.Resolve.{Ranked, rank_at-Ranked, sort-Distinct}

module _ {ℓ} {K : Type ℓ} ⦃e : Eq K⦄ (keys : Keys K) (ok : KeysOk keys) where
  -- The least of the keys above the request is among the two lowest, and so is the request.
  take-next :
      (requested : K) (sorted : List K)
      → Sorted keys ok sorted
      → Distinct sorted
      → ((x : K) → contains sorted x ≡ true → keys.lt x requested ≡ false)
      → (k x : K)
      → ((y : K)
          → contains (take 2 sorted) y ≡ true
          → keys.lt requested y ≡ true
          → keys.lt k y ≡ true)
      → contains sorted x ≡ true
      → keys.lt requested x ≡ true
      → keys.lt k x ≡ true
  unfolding contains
  take-next requested [] s d least k x next h up = ground arith
  take-next requested (t ∷ []) s d least k x next h up = next x h up
  take-next requested (t ∷ u ∷ rest) s d least k x next h up =
      elim (Bool-cases (e.beq t x || e.beq u x)) [
        | inl b ↦ next x (ground arith) up
        | inr b ↦
            let t_below_u : keys.lt t u ≡ true =
              ground (arith, s.0 u, ok.lt_total t u, e.beq_iff u t, e.beq_iff u u) in
            let up_u : keys.lt requested u ≡ true = ground (
              arith,
              least t,
              t_below_u,
              ok.lt_total t requested,
              ok.lt_trans requested t u,
              e.beq_iff t t,
            ) in
            ground (arith, next u, up_u, s.1.0 x, ok.lt_total u x, ok.lt_trans k u x, e.beq_iff u u)
      ]

  take_self :
      (requested : K) (sorted : List K)
      → Sorted keys ok sorted
      → ((x : K) → contains sorted x ≡ true → keys.lt x requested ≡ false)
      → contains sorted requested ≡ true
      → contains (take 2 sorted) requested ≡ true
  unfolding contains
  take_self requested [] s least h = h
  take_self requested (t ∷ []) s least h = h
  take_self requested (t ∷ u ∷ rest) s least h =
      ground (
        arith,
        s.0 requested,
        least t,
        ok.lt_total requested t,
        e.beq_iff t requested,
        e.beq_iff t t,
      )

  abbrev held : List K → List K → K → List K
  held scope claimed key =
      keys_at_or_above keys scope key ++ filter (λ taken. not (keys.lt taken key)) claimed

  -- A key that is ranked against some keys is not among others, if those decide for them.
  unheld :
      (others decisive : List K) (key k : K)
      → Ranked keys ok key decisive k
      → (contains others key ≡ true → contains decisive key ≡ true)
      → ((x : K) → contains others x ≡ true → keys.lt key x ≡ true → keys.lt k x ≡ true)
      → contains others k ≡ false
  unheld others decisive key k r same above_it = elim (Bool-cases (contains others k)) [
    | inl c ↦ ground (
      arith,
      r.kept,
      r.moved,
      above_it k c,
      same,
      ok.lt_irrefl k,
      Bool-cases (contains decisive key),
    )
    | inr c ↦ c
  ]

  -- The key that is ranked against the scope and the claims is held by neither.
  claim-free :
      (scope claimed : List K) (key : K)
      → Distinct scope
      → (k : K) × (rank_at keys key (held scope claimed key) ≡ some k)
        × (contains scope k ≡ false)
        × (contains claimed k ≡ false)
  unfolding keys_at_or_above
  claim-free scope claimed key d =
      let keep : K → Bool = λ x. not (keys.lt x key) in
      let sorted = sort keys (filter keep scope) in
      let same : (x : K) → contains sorted x ≡ (contains scope x && keep x) =
        λ x. contains-sort keys ok (filter keep scope) x ∙ contains-filter keep scope x in
      let least : (x : K) → contains sorted x ≡ true → keys.lt x key ≡ false =
        λ x h. ground (arith, same x) in
      let in_order = sort-Sorted keys ok (filter keep scope) in
      let distinct = sort-Distinct keys ok (filter keep scope) (filter-Distinct keep scope d) in
      let both : (x : K)
          → contains (held scope claimed key) x
            ≡ (contains (take 2 sorted) x || (contains claimed x && keep x)) =
        λ x.
          contains-append (take 2 sorted) (filter keep claimed) x
          ∙ ap (λ b. contains (take 2 sorted) x || b) (contains-filter keep claimed x) in
      let (k, r, ranked) =
        rank_at-Ranked keys ok key (held scope claimed key)
          (λ x h. ground (arith, both x, contains-take 2 sorted x, least x)) in
      (
        k,
        r,
        unheld scope (held scope claimed key) key k ranked
            (λ h. ground (
              arith,
              both key,
              take_self key sorted in_order least (ground (arith, same key, ok.lt_irrefl key)),
            ))
            (λ x h up.
              take-next key sorted in_order distinct least k x
                (λ y c up'. ranked.next y (ground (arith, both y)) up')
                (ground (arith, same x, ok.lt_irrefl x, ok.lt_trans x key x)) up),
        unheld claimed (held scope claimed key) key k ranked
            (λ h. ground (arith, both key, ok.lt_irrefl key))
            (λ x h up.
              ranked.next x (ground (arith, both x, ok.lt_irrefl x, ok.lt_trans x key x)) up),
      )

  -- What a run of claims ends with: a key for each request, in its place, and these behind what was
  -- claimed before; no key twice, and none that the scope holds.
  unfoldable pub present : List (Option K) → List K
  present [] = []
  present (none ∷ ranked) = present ranked
  present (some key ∷ ranked) = key ∷ present ranked

  -- Apart from a list: no key of one is a key of the other.
  abbrev pub Apart : List K → List K → Type ℓ
  Apart xs ys = (x : K) → contains xs x ≡ true → contains ys x ≡ false

  pub record Claims (scope claimed : List K) (requested : List (Option K))
      (ranked : List (Option K)) (all : List K) : Type ℓ where
    pub whole : length ranked ≡ length requested
    pub distinct : Distinct (present ranked)
    pub behind : (x : K) → contains all x ≡ (contains claimed x || contains (present ranked) x)
    pub new : Apart (present ranked) claimed
    pub free : Apart (present ranked) scope

  pub claim_all-Claims :
      (scope claimed : List K) (requested : List (Option K))
      → Distinct scope
      → (ranked : List (Option K)) × (all : List K) × (claim_all keys scope claimed requested
          ≡ some (ranked, all))
        × Claims scope claimed requested ranked all
  unfolding claim_all present contains
  claim_all-Claims scope claimed [] d = (
    [],
    claimed,
    refl,
    record {
      whole = refl;
      distinct = tt;
      behind = λ x. ground arith;
      new = λ x h. ground arith;
      free = λ x h. ground arith;
    },
  )
  claim_all-Claims scope claimed (none ∷ requested) d =
      let (ranked, all, r, c) = claim_all-Claims scope claimed requested d in
      (
        none ∷ ranked,
        all,
        rw (r) refl,
        record {
          whole = ap suc c.whole;
          distinct = c.distinct;
          behind = c.behind;
          new = c.new;
          free = c.free;
        },
      )
  claim_all-Claims scope claimed (some key ∷ requested) d =
      let (k, e', free, new) = claim-free scope claimed key d in
      let (ranked, all, r, c) = claim_all-Claims scope (claimed ++ k ∷ []) requested d in
      (
        some k ∷ ranked,
        all,
        rw (claim_all, e', r) refl,
        record {
          whole = ap suc c.whole;
          distinct = (
            ground (arith, c.new k, contains-append claimed (k ∷ []) k, e.beq_iff k k),
            c.distinct,
          );
          behind = λ x. ground (arith, c.behind x, contains-append claimed (k ∷ []) x);
          new = λ x h.
              ground (arith, c.new x, contains-append claimed (k ∷ []) x, new, e.beq_iff k x);
          free = λ x h. ground (arith, c.free x, e.beq_iff k x);
        },
      )
