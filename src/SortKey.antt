-- ===== src/SortKey.antt =====
-- api/src/services/sortKey.ts: where a row stands among its neighbours. Keys are those that the
-- fractional-indexing package accepts; how it orders and generates them is a parameter, `Keys`, with
-- what its documentation promises. A scope is the list of the keys that the rows of one group hold,
-- archived rows included, and a query over it is a filter and a sort.
use critical_path_api.Prelude.{
  ℕ, zero, suc, ◌≡◌, ◌≢◌, Bool, true, false, not, ◌&&◌, ◌||◌, List, [], ◌∷◌, ◌++◌, Option, none,
  some, foldl, Eq, if◌then◌else◌, length, take, filter, add,
}
pub mod Between
pub mod Resolve
pub mod Append
pub mod Claims
pub mod Batch
pub mod TreeKeys
mod Tests

-- `<` on keys, and `generateNKeysBetween`, where `none` is an exception.
pub record Keys {ℓ} (K : Type ℓ) : Type ℓ where
  pub lt : K → K → Bool
  pub generate : Option K → Option K → ℕ → Option (List K)

module _ {ℓ} {K : Type ℓ} ⦃e : Eq K⦄ (keys : Keys K) where
  -- A key is above a lower bound and below an upper bound, where there is one.
  unfoldable pub above : Option K → K → Bool
  above none k = true
  above (some a) k = keys.lt a k

  unfoldable pub below : K → Option K → Bool
  below k none = true
  below k (some b) = keys.lt k b

  -- Keys that rise from one bound to the other.
  abbrev pub Rising : Option K → List K → Option K → Type 0
  Rising a [] b = Unit {0}
  Rising a (k ∷ ks) b = (above a k ≡ true) × (below k b ≡ true) × Rising (some k) ks b

  -- What the package documents: keys are in a strict total order, and as many keys as asked for are
  -- generated, rising between the bounds. That there is always room above a key, also above the largest,
  -- of which a comment in the code says otherwise, is an assumption.
  pub record KeysOk : Type ℓ where
    pub lt_irrefl : (a : K) → keys.lt a a ≡ false
    pub lt_trans : (a b c : K) → keys.lt a b ≡ true → keys.lt b c ≡ true → keys.lt a c ≡ true
    pub lt_total : (a b : K) → keys.lt a b ≡ false → keys.lt b a ≡ false → a ≡ b
    pub generate_rising :
        (a b : Option K) (n : ℕ) (ks : List K)
        → keys.generate a b n ≡ some ks
        → (length ks ≡ n) × Rising a ks b
    pub generate_above :
        (a : K) (b : Option K) (n : ℕ) → below a b ≡ true → keys.generate (some a) b n ≢ none
    pub generate_first : (n : ℕ) → keys.generate none none n ≢ none

  -- `.sort()`, and `order by sort_key`.
  pub insert_sorted : K → List K → List K
  insert_sorted k [] = k ∷ []
  insert_sorted k (x ∷ xs) =
      let rest = insert_sorted k xs in if keys.lt x k then x ∷ rest else k ∷ x ∷ xs

  pub sort : List K → List K
  sort [] = []
  sort (x ∷ xs) = insert_sorted x (sort xs)

  unfoldable pub keys_between : Option K → Option K → ℕ → Option (List K)
  keys_between a b count = keys.generate a b count

  unfoldable pub first : List K → Option K
  first [] = none
  first (k ∷ ks) = some k

  -- `select max(sort_key)`
  pub larger : Option K → K → Option K
  larger none k = some k
  larger (some m) k = if keys.lt m k then some k else some m

  pub max_key : List K → Option K
  max_key = foldl larger none

  pub keys_at_or_above : List K → K → List K
  keys_at_or_above scope requested =
      take 2 (sort (filter (λ key. not (keys.lt key requested)) scope))

  -- `none` is the exception that `keysBetween` throws.
  pub rank_above : K → List K → Option K
  rank_above requested above_it = elim (keys_between (some requested) (first above_it) 1) [
    | none ↦ none
    | some fresh ↦ first fresh
  ]

  -- `rankAt` from the sorted keys on.
  pub rank_in : K → List K → Option K
  rank_in requested [] = some requested
  rank_in requested (lowest ∷ rest) = elim (e.beq lowest requested) [
    | true ↦ rank_above requested rest
    | false ↦ some requested
  ]

  pub rank_at : K → List K → Option K
  rank_at requested at_or_above =
      rank_in requested (sort (foldl (λ set key. add key set) [] at_or_above))

  pub append_keys : List K → ℕ → Option (List K)
  append_keys scope count = keys_between (max_key scope) none count

  pub resolve_sort_key : List K → K → Option K
  resolve_sort_key scope requested = rank_at requested (keys_at_or_above scope requested)

  -- The first loop of `resolveSortKeys`: a key for each request, or `none` for an entry that is to be
  -- appended, and all that has been claimed.
  pub claim_all : List K → List K → List (Option K) → Option (List (Option K) × List K)
  claim_all scope claimed [] = some ([], claimed)
  claim_all scope claimed (none ∷ requested) = elim (claim_all scope claimed requested) [
    | none ↦ none
    | some (ranked, all) ↦ some (none ∷ ranked, all)
  ]
  claim_all scope claimed (some key ∷ requested) =
      elim (rank_at key
        (keys_at_or_above scope key ++ filter (λ taken. not (keys.lt taken key)) claimed)) [
          | none ↦ none
          | some ranked ↦ elim (claim_all scope (claimed ++ ranked ∷ []) requested) [
            | none ↦ none
            | some (others, all) ↦ some (some ranked ∷ others, all)
          ]
        ]

  pub appending : List (Option K) → ℕ
  appending [] = 0
  appending (none ∷ ranked) = suc (appending ranked)
  appending (some key ∷ ranked) = appending ranked

  -- `appending.forEach((index, position) => { keys[index] = fresh[position]; })`
  pub fill : List (Option K) → List K → List K
  fill [] fresh = []
  fill (some key ∷ ranked) fresh = key ∷ fill ranked fresh
  fill (none ∷ ranked) (key ∷ fresh) = key ∷ fill ranked fresh
  fill (none ∷ ranked) [] = fill ranked []

  -- `.at(-1)`
  pub last : List K → Option K
  last [] = none
  last (k ∷ []) = some k
  last (k ∷ j ∷ ks) = last (j ∷ ks)

  -- `[max, ...claimed].filter((key) => key !== null).sort().at(-1)`
  pub tail_key : List K → List K → Option K
  tail_key scope claimed = elim (max_key scope) [
    | none ↦ last (sort claimed)
    | some greatest ↦ last (sort (greatest ∷ claimed))
  ]

  pub resolve_sort_keys : List K → List (Option K) → Option (List K)
  resolve_sort_keys scope requested = elim (claim_all scope [] requested) [
    | none ↦ none
    | some (ranked, claimed) ↦ elim (appending ranked) [
      | zero ↦ some (fill ranked [])
      | suc n ↦ elim (keys_between (tail_key scope claimed) none (suc n)) [
        | none ↦ none
        | some fresh ↦ some (fill ranked fresh)
      ]
    ]
  ]
