-- ===== src/Prelude/Sets.antt =====
-- A JavaScript `Set`: the list of its members in insertion order.
use mathlib.Core.Path.{◌≡◌}
use mathlib.Core.Bool.{false, not, ◌&&◌, ◌||◌}
use mathlib.Core.List.{List, [], ◌∷◌, ◌++◌}
use Prim.Native.Nat.{◌<◌, ◌+◌}
use native.Mathlib.Omega.{arith}
use critical_path_api.Prelude.Tests.{Eq, if◌then◌else◌}
use critical_path_api.Prelude.Lists.{
  length, length-append, filter, contains, contains-append, Distinct,
}

module _ {ℓ} {A : Type ℓ} ⦃e : Eq A⦄ where
  unfoldable pub add : A → List A → List A
  add a xs = if contains xs a then xs else xs ++ a ∷ []

  unfoldable pub remove : A → List A → List A
  remove a = filter (λ x. not (e.beq a x))

  pub contains-add : (a b : A) (xs : List A) → contains (add a xs) b ≡ (e.beq a b || contains xs b)
  unfolding add contains
  contains-add a b xs = ground (arith, contains-append xs (a ∷ []) b, e.beq_iff a b)

  pub contains-remove :
      (a b : A) (xs : List A) → contains (remove a xs) b ≡ (not (e.beq a b) && contains xs b)
  unfolding remove contains filter
  contains-remove a b [] = ground arith
  contains-remove a b (x ∷ xs) =
      ground (arith, contains-remove a b xs, e.beq_iff a x, e.beq_iff x b, e.beq_iff a b)

  append-Distinct :
      (a : A) (xs : List A) → contains xs a ≡ false → Distinct xs → Distinct (xs ++ a ∷ [])
  unfolding contains
  append-Distinct a [] h d = ground arith
  append-Distinct a (x ∷ xs) h d =
      ground
        (arith, append-Distinct a xs, contains-append xs (a ∷ []) x, e.beq_iff x a, e.beq_iff a x)

  pub add-Distinct : (a : A) (xs : List A) → Distinct xs → Distinct (add a xs)
  unfolding add
  add-Distinct a xs d = ground (arith, append-Distinct a xs)

  pub remove-Distinct : (a : A) (xs : List A) → Distinct xs → Distinct (remove a xs)
  unfolding remove filter
  remove-Distinct a [] d = d
  remove-Distinct a (x ∷ xs) d = ground (arith, remove-Distinct a xs d.1, contains-remove a x xs)

  pub add_some : (a : A) (xs : List A) → 0 < length (add a xs)
  unfolding add contains
  add_some a [] = ground arith
  add_some a (x ∷ xs) = ground (arith, length-append (x ∷ xs) (a ∷ []))

  -- Writing to a set changes its size by one at most.
  pub length-add :
      (a : A) (xs : List A)
      → length (add a xs) ≡ (if contains xs a then length xs else length xs + 1)
  unfolding add
  length-add a xs = ground (arith, length-append xs (a ∷ []))
