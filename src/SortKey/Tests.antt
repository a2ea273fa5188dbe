-- ===== src/SortKey/Tests.antt =====
-- Resolving a key in a scope of three.
use critical_path_api.Prelude.{
  Option, Distinct, length, ◌≡◌, refl, true, false, List, [], ◌∷◌, none, some, add, filter,
  contains,
}
use critical_path_api.SortKey.{
  sort, insert_sorted, first, keys_between, keys_at_or_above, rank_above, rank_in, rank_at,
  resolve_sort_key, append_keys, resolve_sort_keys, claim_all, appending, fill, last, tail_key,
  max_key, larger, Rising,
}
use critical_path_api.SortKey.Resolve.{Ranked, resolve_sort_key-Ranked}
use critical_path_api.SortKey.Append.{append_keys-Rising}
use critical_path_api.SortKey.Claims.{Apart}
use critical_path_api.SortKey.Batch.{resolve_sort_keys-Distinct}
use critical_path_api.SortKey.TreeKeys.{TreePath, path_eq, tree_keys, tree_keys-Ok}

abbrev root : TreePath
root = []

-- Left to right: the root's left child, the root, and its right child.
abbrev scope : List TreePath
scope = root ∷ (true ∷ []) ∷ (false ∷ []) ∷ []

-- The root is taken, so the answer lies between it and its right child.
taken : resolve_sort_key tree_keys scope root ≡ some (true ∷ false ∷ [])
unfolding resolve_sort_key keys_at_or_above rank_at rank_in rank_above keys_between sort
    insert_sorted first filter add contains
taken = refl

free : resolve_sort_key tree_keys scope (true ∷ true ∷ []) ≡ some (true ∷ true ∷ [])
unfolding resolve_sort_key keys_at_or_above rank_at rank_in sort insert_sorted filter add contains
free = refl

resolve_sort_key-Ranked_example :
    (k : TreePath) × (resolve_sort_key tree_keys scope root ≡ some k)
    × Ranked tree_keys tree_keys-Ok root scope k
unfolding contains
resolve_sort_key-Ranked_example =
    resolve_sort_key-Ranked tree_keys tree_keys-Ok scope root (refl, (refl, (refl, tt)))

append_keys-Rising_example :
    (ks : List TreePath) × (append_keys tree_keys scope 2 ≡ some ks)
    × (length ks ≡ 2)
    × ((x : TreePath) → contains scope x ≡ true → Rising tree_keys (some x) ks none)
append_keys-Rising_example = append_keys-Rising tree_keys tree_keys-Ok scope 2

-- Two requests for the root and one entry to append.
abbrev requests : List (Option TreePath)
requests = some root ∷ none ∷ some root ∷ []

three_answers :
    resolve_sort_keys tree_keys scope requests
    ≡ some ((true ∷ false ∷ []) ∷ (true ∷ true ∷ []) ∷ (true ∷ false ∷ false ∷ []) ∷ [])
unfolding resolve_sort_keys claim_all appending fill last tail_key max_key larger keys_at_or_above
    rank_at rank_in rank_above keys_between sort insert_sorted first filter add contains
three_answers = refl

resolve_sort_keys-Distinct_example :
    (ks : List TreePath) × (resolve_sort_keys tree_keys scope requests ≡ some ks)
    × (length ks ≡ length requests)
    × Distinct ks
    × Apart tree_keys tree_keys-Ok ks scope
unfolding contains
resolve_sort_keys-Distinct_example =
    resolve_sort_keys-Distinct tree_keys tree_keys-Ok scope requests (refl, (refl, (refl, tt)))
