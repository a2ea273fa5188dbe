-- ===== src/Prelude/Lists.antt =====
-- Lists under native lengths and Boolean tests, with the library's names where it has them.
use Prim.Native.Nat.{ℕ, zero, suc, ◌+◌, ◌≤◌}
use mathlib.Core.Path.{◌≡◌, refl, ap}
use mathlib.Core.Logic.{◌⊎◌, inl, inr}
use mathlib.Core.Bool.{Bool, true, false, ◌&&◌, ◌||◌}
use mathlib.Core.List.{List, [], ◌∷◌, ◌++◌, map}
use mathlib.Core.Option.{Option, none, some}
use native.Mathlib.Omega.{arith}
use critical_path_api.Prelude.Tests.{Eq, ltb, if◌then◌else◌}

module _ {ℓ} {A : Type ℓ} where
  abbrev pub length : List A → ℕ
  length [] = 0
  length (x ∷ xs) = suc (length xs)

  abbrev pub get_elem? : List A → ℕ → Option A
  get_elem? [] i = none
  get_elem? (x ∷ xs) zero = some x
  get_elem? (x ∷ xs) (suc i) = get_elem? xs i

  abbrev pub take : ℕ → List A → List A
  take zero xs = []
  take (suc n) [] = []
  take (suc n) (x ∷ xs) = x ∷ take n xs

  abbrev pub drop : ℕ → List A → List A
  drop zero xs = xs
  drop (suc n) [] = []
  drop (suc n) (x ∷ xs) = drop n xs

  -- `xs.filter(keep)` and `xs.some(test)`.
  unfoldable pub filter : (A → Bool) → List A → List A
  filter keep [] = []
  filter keep (x ∷ xs) = let rest = filter keep xs in if keep x then x ∷ rest else rest

  unfoldable pub any : (A → Bool) → List A → Bool
  any test [] = false
  any test (x ∷ xs) = test x || any test xs

  -- `xs.find(test)`
  unfoldable pub find : (A → Bool) → List A → Option A
  find test [] = none
  find test (x ∷ xs) = let rest = find test xs in if test x then some x else rest

  pub length-append : (xs ys : List A) → length (xs ++ ys) ≡ length xs + length ys
  length-append [] ys = omega arith
  length-append (x ∷ xs) ys = omega (arith, length-append xs ys)

  pub length-filter-le : (keep : A → Bool) (xs : List A) → length (filter keep xs) ≤ length xs
  unfolding filter
  length-filter-le keep [] = omega arith
  length-filter-le keep (x ∷ xs) = ground (arith, length-filter-le keep xs)

module _ {ℓ} {A : Type ℓ} ⦃e : Eq A⦄ where
  -- `xs.includes(a)`, and `has` of a `Set` kept as the list of its members.
  unfoldable pub contains : List A → A → Bool
  contains [] a = false
  contains (x ∷ xs) a = e.beq x a || contains xs a

  -- How often `a` occurs.
  unfoldable pub count : List A → A → ℕ
  count [] a = 0
  count (x ∷ xs) a = (if e.beq x a then 1 else 0) + count xs a

  -- No element occurs twice.
  abbrev pub Distinct : List A → Type 0
  Distinct [] = Unit {0}
  Distinct (x ∷ xs) = (contains xs x ≡ false) × Distinct xs

  pub contains-append :
      (xs ys : List A) (a : A) → contains (xs ++ ys) a ≡ (contains xs a || contains ys a)
  unfolding contains
  contains-append [] ys a = refl
  contains-append (x ∷ xs) ys a = ground (arith, contains-append xs ys a)

  pub count-append : (xs ys : List A) (a : A) → count (xs ++ ys) a ≡ count xs a + count ys a
  unfolding count
  count-append [] ys a = omega arith
  count-append (x ∷ xs) ys a = ground (arith, count-append xs ys a)

  pub contains-count : (xs : List A) (a : A) → contains xs a ≡ ltb 0 (count xs a)
  unfolding contains count
  contains-count [] a = refl
  contains-count (x ∷ xs) a = ground (arith, contains-count xs a)

  pub contains-filter :
      (keep : A → Bool) (xs : List A) (a : A)
      → contains (filter keep xs) a ≡ (contains xs a && keep a)
  unfolding contains filter
  contains-filter keep [] a = refl
  contains-filter keep (x ∷ xs) a = ground (arith, contains-filter keep xs a, e.beq_iff x a)

  pub contains-take :
      (n : ℕ) (xs : List A) (a : A) → contains (take n xs) a ≡ true → contains xs a ≡ true
  unfolding contains
  contains-take zero xs a h = ground arith
  contains-take (suc n) [] a h = h
  contains-take (suc n) (x ∷ xs) a h = ground (arith, contains-take n xs a)

  pub filter-Distinct : (keep : A → Bool) (xs : List A) → Distinct xs → Distinct (filter keep xs)
  unfolding filter
  filter-Distinct keep [] d = d
  filter-Distinct keep (x ∷ xs) d =
      ground (arith, filter-Distinct keep xs d.1, contains-filter keep xs x)

  pub count-Distinct :
      (xs : List A) (a : A) → Distinct xs → count xs a ≡ (if contains xs a then 1 else 0)
  unfolding contains count
  count-Distinct [] a h = refl
  count-Distinct (x ∷ xs) a h =
      ground (arith, count-Distinct xs a, contains-count xs x, contains-count xs a, e.beq_iff x a)

pub length-map {ℓ κ} :
    {A : Type ℓ} {B : Type κ} (f : A → B) (xs : List A) → length (map f xs) ≡ length xs
length-map f [] = refl
length-map f (x ∷ xs) = ap suc (length-map f xs)

pub List-cases {ℓ} :
    {A : Type ℓ} (xs : List A) → (xs ≡ []) ⊎ ((x : A) × (rest : List A) × (xs ≡ x ∷ rest))
List-cases [] = inl refl
List-cases (x ∷ xs) = inr (x, xs, refl)
