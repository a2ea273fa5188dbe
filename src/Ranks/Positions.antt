-- ===== src/Ranks/Positions.antt =====
-- cli/src/positions.ts: the key of a row that the command line places, and how it agrees with the
-- web client. `resolveAnchor` is a parameter, `none` where it throws. A missing anchor is index -1,
-- which is 0 here: the index is only compared with 0.
use Prim.Native.String.{String}
use critical_path_api.Prelude.{
  ℕ, suc, ◌+◌, ◌-◌, Bool, ◌||◌, List, Option, none, some, map, Eq, if◌then◌else◌, length, get_elem?,
  leb, ltb, ◌==◌, string_eq,
}
use critical_path_api.SortKey.{Keys}
use critical_path_api.Ranks.{Order, less, greater, Keyed, first_of, index_of}

pub record Placement : Type 0 where
  pub top : Bool
  pub bottom : Bool
  pub before : Option String
  pub after : Option String

-- How many of the options were passed.
unfoldable pub given : Option String → ℕ
given none = 0
given (some anchor) = 1

unfoldable pub chosen_count : Placement → ℕ
chosen_count p =
    (if p.top then 1 else 0) + (if p.bottom then 1 else 0) + given p.before + given p.after

unfoldable pub index_or_zero : String → List String → ℕ
index_or_zero id ids = elim (index_of id ids) [ none ↦ 0 | some i ↦ i ]

unfoldable pub index_past : String → List String → ℕ
index_past id ids = elim (index_of id ids) [ none ↦ 0 | some i ↦ suc i ]

unfoldable pub anchored_index :
    Option String → Option String → List String → (String → Option String) → Option ℕ
anchored_index (some reference) after ids resolve_anchor = elim (resolve_anchor reference) [
  | none ↦ none
  | some id ↦ some (index_or_zero id ids)
]
anchored_index none (some reference) ids resolve_anchor = elim (resolve_anchor reference) [
  | none ↦ none
  | some id ↦ some (index_past id ids)
]
anchored_index none none ids resolve_anchor = some (length ids)

-- `none` is the usage error, or what `resolveAnchor` throws.
unfoldable pub placement_index : Placement → List String → (String → Option String) → Option ℕ
placement_index p ids resolve_anchor =
    if ltb 1 (chosen_count p)
    then none
    else (if p.top then some 0 else anchored_index p.before p.after ids resolve_anchor)

module _ {ℓ} {K : Type ℓ} where
  unfoldable pub key_at : List (Keyed K) → ℕ → Option K
  key_at items i = elim (get_elem? items i) [ none ↦ none | some item ↦ some item.sort_key ]

module _ {ℓ} {K : Type ℓ} ⦃e : Eq K⦄ (keys : Keys K) where
  unfoldable pub spread_between : Option K → Option K → ℕ → Option (List K)
  spread_between a b count = keys.generate a b count

  unfoldable pub keys_for_index : List (Keyed K) → ℕ → ℕ → Option (List K)
  keys_for_index sorted index count =
      let size = length sorted in
      if size == 0 || leb size index
      then keys.generate (if size == 0 then none else key_at sorted (size - 1)) none count
      else (if index == 0
          then keys.generate none (key_at sorted 0) count
          else keys.generate (key_at sorted (index - 1)) (key_at sorted index) count)

  unfoldable pub keys_for_placement :
      Placement → List (Keyed K) → (String → Option String) → ℕ → Option (List K)
  keys_for_placement p sorted resolve_anchor count =
      elim (placement_index p (map (λ item. item.id) sorted) resolve_anchor) [
        | none ↦ none
        | some index ↦ keys_for_index sorted index count
      ]

  unfoldable pub key_for_placement :
      Placement → List (Keyed K) → (String → Option String) → Option K
  key_for_placement p sorted resolve_anchor =
      first_of (keys_for_placement p sorted resolve_anchor 1)

  module _ (locale_compare : String → String → Order) where
    -- `byRank` of the command line.
    unfoldable pub by_rank_keyed : Keyed K → Keyed K → Order
    by_rank_keyed a b =
        if keys.lt a.sort_key b.sort_key
        then less
        else (if keys.lt b.sort_key a.sort_key then greater else locale_compare a.id b.id)
