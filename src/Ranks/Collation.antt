-- ===== src/Ranks/Collation.antt =====
-- Comparing texts by the codes of their characters collates, as `localeCompare` does on ids.
use Prim.Native.Nat.{ℕ, Ordering, compare as compare_codes}
use Prim.Native.Char.{code}
use Prim.Native.String.compare
use Prim.Native.String.{String, [], ◌∷◌, then, compare}
use critical_path_api.Prelude.{◌≡◌, refl, sym, true, false, arith}
use critical_path_api.Ranks.{Order, less, same, greater, negative, positive}
use critical_path_api.Ranks.Compare.{Collates}

unfoldable pub order_of : Ordering → Order
order_of Ordering.lt = less
order_of Ordering.eq = same
order_of Ordering.gt = greater

unfoldable pub by_codes : String → String → Order
by_codes s t = order_of (compare s t)

then-flip :
    (m n : ℕ) (o o' : Ordering)
    → positive (order_of o) ≡ negative (order_of o')
    → positive (order_of (then (compare_codes m n) o))
      ≡ negative (order_of (then (compare_codes n m) o'))
unfolding order_of positive negative
then-flip m n o o' h = ground arith

then_trans :
    (m n k : ℕ) (o o' p : Ordering)
    → (negative (order_of o) ≡ true → negative (order_of o') ≡ true → negative (order_of p) ≡ true)
    → negative (order_of (then (compare_codes m n) o)) ≡ true
    → negative (order_of (then (compare_codes n k) o')) ≡ true
    → negative (order_of (then (compare_codes m k) p)) ≡ true
unfolding order_of negative
then_trans m n k o o' p t h h' = ground arith

codes-flip : (s t : String) → positive (by_codes s t) ≡ negative (by_codes t s)
unfolding by_codes order_of positive negative
codes-flip [] [] = refl
codes-flip [] (d ∷ t) = rw (by_codes, compare.nil-cons d t, compare.cons-nil d t) refl
codes-flip (c ∷ s) [] = rw (by_codes, compare.nil-cons c s, compare.cons-nil c s) refl
codes-flip (c ∷ s) (d ∷ t) =
    rw (by_codes, compare.cons-cons c d s t, compare.cons-cons d c t s)
      (then-flip (code c) (code d) (compare s t) (compare t s) (codes-flip s t))

less_nil : (o : Ordering) (s : String) → o ≡ compare s [] → negative (order_of o) ≡ false
unfolding negative order_of
less_nil o [] h = rw (h) refl
less_nil o (c ∷ s) h = rw (h, compare.cons-nil c s) refl

codes_trans :
    (s t u : String)
    → negative (by_codes s t) ≡ true
    → negative (by_codes t u) ≡ true
    → negative (by_codes s u) ≡ true
unfolding by_codes order_of negative
codes_trans s t [] h h' = ground (arith, less_nil (compare t []) t refl)
codes_trans [] t (e ∷ u) h h' = rw (by_codes, compare.nil-cons e u) refl
codes_trans (c ∷ s) [] (e ∷ u) h h' = ground (arith, less_nil (compare (c ∷ s) []) (c ∷ s) refl)
codes_trans (c ∷ s) (d ∷ t) (e ∷ u) h h' =
    rw (by_codes, compare.cons-cons c e s u)
      (then_trans (code c) (code d) (code e) (compare s t) (compare t u) (compare s u)
        (codes_trans s t u) (rw (sym (compare.cons-cons c d s t)) h)
        (rw (sym (compare.cons-cons d e t u)) h'))

same_by_flip : (o : Order) → positive o ≡ negative o → o ≡ same
unfolding positive negative
same_by_flip less h = ground arith
same_by_flip same h = refl
same_by_flip greater h = ground arith

pub by_codes-Collates : Collates by_codes
unfolding by_codes
by_codes-Collates = record {
  compare_self = λ s. same_by_flip (by_codes s s) (codes-flip s s);
  compare_flip = codes-flip;
  compare_trans = codes_trans;
}
