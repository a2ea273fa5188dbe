-- ===== src/Ranks.antt =====
-- web/src/lib/ranks.ts: the key that a dropped row gets, and the cards that a drop names. Ids are
-- texts, `localeCompare` is a parameter, and so is the fractional-indexing package (`Keys`); where
-- it throws, the answer is `none`. An index is a number from 0 on: a negative one is only compared
-- with 0 and treated as 0.
use Prim.Native.String.{String}
use critical_path_api.Prelude.{
  ℕ, suc, ◌-◌, ◌≡◌, Bool, true, false, not, List, [], ◌∷◌, Option, none, some, map, foldl, Eq,
  if◌then◌else◌, ltb, leb, ◌==◌, length, get_elem?, filter, find, string_eq,
}
use critical_path_api.SortKey.{Keys}
pub mod Drops
pub mod Compare
mod Collation
pub mod Place
pub mod Anchors
pub mod Slots
pub mod Updates
pub mod Positions
pub mod Meant
pub mod Placements
mod Tests

-- The sign of the number that a comparison answers.
pub data Order : Type 0 where
  less : Order
  same : Order
  greater : Order

-- `order < 0` and `order > 0`
unfoldable pub negative : Order → Bool
negative less = true
negative same = false
negative greater = false

unfoldable pub positive : Order → Bool
positive less = false
positive same = false
positive greater = true

pub record Ranked {ℓ} (K : Type ℓ) : Type ℓ where
  pub id : String
  pub sort_key : Option K

pub record Keyed {ℓ} (K : Type ℓ) : Type ℓ where
  pub id : String
  pub sort_key : K

pub record RankUpdate {ℓ} (K : Type ℓ) : Type ℓ where
  pub id : String
  pub sort_key : K

-- The cards on the sides of a slot: the card above it with the one below it, if any, the card below
-- it alone, or the end of the list.
pub data Neighbors : Type 0 where
  under : String → Option String → Neighbors
  over : String → Neighbors
  at_end : Neighbors

unfoldable pub neighbor_ids : Neighbors → Option String × Option String
neighbor_ids (under after before) = (some after, before)
neighbor_ids (over before) = (none, some before)
neighbor_ids at_end = (none, none)

unfoldable pub neighbors_from_ids : Option String → Option String → Neighbors
neighbors_from_ids (some after) before = under after before
neighbors_from_ids none (some before) = over before
neighbors_from_ids none none = at_end

-- `items.findIndex((item) => item.id === id)`, -1 being `none`.
unfoldable pub index_of : String → List String → Option ℕ
index_of id [] = none
index_of id (x ∷ ids) =
    if string_eq.beq x id
    then some 0
    else elim (index_of id ids) [ none ↦ none | some i ↦ some (suc i) ]

module _ {ℓ} {K : Type ℓ} where
  -- A keyed row is a ranked row.
  unfoldable pub as_ranked : Keyed K → Ranked K
  as_ranked item = record { id = item.id; sort_key = some item.sort_key }

  -- The type guard of `reorderRankUpdates`' filter.
  unfoldable pub keyed_only : List (Ranked K) → List (Keyed K)
  keyed_only [] = []
  keyed_only (item ∷ items) = elim item.sort_key [
    | none ↦ keyed_only items
    | some key ↦ record { id = item.id; sort_key = key } ∷ keyed_only items
  ]

  -- `keys(...)[0]!`
  unfoldable pub first_of : Option (List K) → Option K
  first_of none = none
  first_of (some ks) = get_elem? ks 0

  unfoldable pub key_of : Option (Ranked K) → Option K
  key_of none = none
  key_of (some item) = item.sort_key

  pub card : String → List (Keyed K) → Option (Keyed K)
  card id items = find (λ item. string_eq.beq item.id id) items

  -- An anchor that is named and still there.
  unfoldable pub anchor : Option String → List (Keyed K) → Option (Keyed K)
  anchor none items = none
  anchor (some id) items = card id items

module _ {ℓ} {K : Type ℓ} ⦃e : Eq K⦄ (keys : Keys K)
    (locale_compare : String → String → Order) where
  unfoldable pub compare_keys : Option K → Option K → Order → Order
  compare_keys none none ids = ids
  compare_keys none (some b) ids = greater
  compare_keys (some a) none ids = less
  compare_keys (some a) (some b) ids =
      if e.beq a b then ids else (if keys.lt a b then less else greater)

  unfoldable pub by_rank : Ranked K → Ranked K → Order
  by_rank a b = compare_keys a.sort_key b.sort_key (locale_compare a.id b.id)

  -- The step of `extreme`.
  unfoldable pub better : Bool → Option (Ranked K) → Ranked K → Option (Ranked K)
  better want_highest none item = some item
  better want_highest (some best) item =
      let order = by_rank best item in
      if (if want_highest then negative order else positive order) then some item else some best

  unfoldable pub extreme : List (Ranked K) → Bool → Option (Ranked K)
  extreme items want_highest = foldl (better want_highest) none items

  unfoldable pub append_run : List (Keyed K) → ℕ → Option (List K)
  append_run items count = keys.generate (key_of (extreme (map as_ranked items) true)) none count

  unfoldable pub append : List (Keyed K) → Option K
  append items = first_of (append_run items 1)

  unfoldable pub prepend : List (Ranked K) → Option K
  prepend items = first_of (keys.generate none (key_of (extreme items false)) 1)

  unfoldable pub between : Option (Keyed K) → Option (Keyed K) → Option K
  between none none = append []
  between none (some next) = prepend (as_ranked next ∷ [])
  between (some previous) none = append (previous ∷ [])
  between (some previous) (some next) =
      if not (keys.lt previous.sort_key next.sort_key)
      then first_of (keys.generate (some previous.sort_key) none 1)
      else first_of (keys.generate (some previous.sort_key) (some next.sort_key) 1)

  unfoldable pub place_at_index : List (Keyed K) → ℕ → Option K
  place_at_index sorted index =
      if length sorted == 0
      then append []
      else (if index == 0
          then prepend (map as_ranked sorted)
          else (if leb (length sorted) index
              then append sorted
              else between (get_elem? sorted (index - 1)) (get_elem? sorted index)))
