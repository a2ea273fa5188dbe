-- ===== src/SortKey/TreeKeys.antt =====
-- Keys that satisfy the laws: the paths in a binary tree, ordered from left to right, which have
-- room everywhere.
use critical_path_api.Prelude.{
  ℕ, zero, suc, ◌≡◌, ◌≢◌, ◌↔◌, refl, ap, subst, inl, inr, Bool, true, false, List, [], ◌∷◌, ◌++◌,
  Option, none, some, Eq, arith, if◌then◌else◌, length, Bool-cases, Option-cases,
}
use critical_path_api.SortKey.{Keys, KeysOk, Rising, above, below}

-- `false` goes left and `true` goes right.
abbrev pub TreePath : Type 0
TreePath = List Bool

abbrev same_path : TreePath → TreePath → Bool
same_path [] [] = true
same_path [] (b ∷ q) = false
same_path (a ∷ p) [] = false
same_path (true ∷ p) (true ∷ q) = same_path p q
same_path (false ∷ p) (false ∷ q) = same_path p q
same_path (true ∷ p) (false ∷ q) = false
same_path (false ∷ p) (true ∷ q) = false

pub same_path_iff : (p q : TreePath) → (same_path p q ≡ true) ↔ (p ≡ q)
same_path_iff [] [] = ground arith
same_path_iff [] (b ∷ q) = ground arith
same_path_iff (a ∷ p) [] = ground arith
same_path_iff (true ∷ p) (true ∷ q) = ground (arith, same_path_iff p q)
same_path_iff (false ∷ p) (false ∷ q) = ground (arith, same_path_iff p q)
same_path_iff (true ∷ p) (false ∷ q) = ground arith
same_path_iff (false ∷ p) (true ∷ q) = ground arith

instance abbrev pub path_eq : Eq TreePath
path_eq = record { beq = same_path; beq_iff = same_path_iff }

abbrev left_of : TreePath → TreePath → Bool
left_of [] [] = false
left_of [] (true ∷ q) = true
left_of [] (false ∷ q) = false
left_of (true ∷ p) [] = false
left_of (false ∷ p) [] = true
left_of (true ∷ p) (true ∷ q) = left_of p q
left_of (false ∷ p) (false ∷ q) = left_of p q
left_of (true ∷ p) (false ∷ q) = false
left_of (false ∷ p) (true ∷ q) = true

abbrev middle : Option TreePath → Option TreePath → TreePath
middle none none = []
middle none (some q) = q ++ false ∷ []
middle (some p) none = p ++ true ∷ []
middle (some p) (some q) = if left_of (p ++ true ∷ []) q then p ++ true ∷ [] else q ++ false ∷ []

abbrev ordered : Option TreePath → Option TreePath → Bool
ordered none q = true
ordered (some p) none = true
ordered (some p) (some q) = left_of p q

abbrev add_path : TreePath → Option (List TreePath) → Option (List TreePath)
add_path k none = none
add_path k (some ks) = some (k ∷ ks)

abbrev paths_between : Option TreePath → Option TreePath → ℕ → Option (List TreePath)
paths_between p q zero = if ordered p q then some [] else none
paths_between p q (suc n) =
    let rest = paths_between (some (middle p q)) q n in
    if ordered p q then add_path (middle p q) rest else none

abbrev pub tree_keys : Keys TreePath
tree_keys = record { lt = left_of; generate = paths_between }

left_of_self : (p : TreePath) → left_of p p ≡ false
left_of_self [] = refl
left_of_self (true ∷ p) = left_of_self p
left_of_self (false ∷ p) = left_of_self p

left_of_trans : (p q r : TreePath) → left_of p q ≡ true → left_of q r ≡ true → left_of p r ≡ true
left_of_trans [] [] [] h k = ground arith
left_of_trans [] [] (true ∷ r) h k = ground arith
left_of_trans [] [] (false ∷ r) h k = ground arith
left_of_trans [] (true ∷ q) [] h k = ground arith
left_of_trans [] (true ∷ q) (true ∷ r) h k = ground arith
left_of_trans [] (true ∷ q) (false ∷ r) h k = ground arith
left_of_trans [] (false ∷ q) [] h k = ground arith
left_of_trans [] (false ∷ q) (true ∷ r) h k = ground arith
left_of_trans [] (false ∷ q) (false ∷ r) h k = ground arith
left_of_trans (true ∷ p) [] [] h k = ground arith
left_of_trans (true ∷ p) [] (true ∷ r) h k = ground arith
left_of_trans (true ∷ p) [] (false ∷ r) h k = ground arith
left_of_trans (true ∷ p) (true ∷ q) [] h k = ground arith
left_of_trans (true ∷ p) (true ∷ q) (true ∷ r) h k = ground (arith, left_of_trans p q r)
left_of_trans (true ∷ p) (true ∷ q) (false ∷ r) h k = ground arith
left_of_trans (true ∷ p) (false ∷ q) [] h k = ground arith
left_of_trans (true ∷ p) (false ∷ q) (true ∷ r) h k = ground arith
left_of_trans (true ∷ p) (false ∷ q) (false ∷ r) h k = ground arith
left_of_trans (false ∷ p) [] [] h k = ground arith
left_of_trans (false ∷ p) [] (true ∷ r) h k = ground arith
left_of_trans (false ∷ p) [] (false ∷ r) h k = ground arith
left_of_trans (false ∷ p) (true ∷ q) [] h k = ground arith
left_of_trans (false ∷ p) (true ∷ q) (true ∷ r) h k = ground arith
left_of_trans (false ∷ p) (true ∷ q) (false ∷ r) h k = ground arith
left_of_trans (false ∷ p) (false ∷ q) [] h k = ground arith
left_of_trans (false ∷ p) (false ∷ q) (true ∷ r) h k = ground arith
left_of_trans (false ∷ p) (false ∷ q) (false ∷ r) h k = ground (arith, left_of_trans p q r)

left_of_total : (p q : TreePath) → left_of p q ≡ false → left_of q p ≡ false → p ≡ q
left_of_total [] [] h k = refl
left_of_total [] (true ∷ q) h k = ground arith
left_of_total [] (false ∷ q) h k = ground arith
left_of_total (true ∷ p) [] h k = ground arith
left_of_total (false ∷ p) [] h k = ground arith
left_of_total (true ∷ p) (true ∷ q) h k = ground (arith, left_of_total p q)
left_of_total (false ∷ p) (false ∷ q) h k = ground (arith, left_of_total p q)
left_of_total (true ∷ p) (false ∷ q) h k = ground arith
left_of_total (false ∷ p) (true ∷ q) h k = ground arith

right_child : (p : TreePath) → left_of p (p ++ true ∷ []) ≡ true
right_child [] = refl
right_child (true ∷ p) = right_child p
right_child (false ∷ p) = right_child p

left_child : (p : TreePath) → left_of (p ++ false ∷ []) p ≡ true
left_child [] = refl
left_child (true ∷ p) = left_child p
left_child (false ∷ p) = left_child p

-- Of two paths in order, the first's right child or the second's left child lies between them.
either_child :
    (p q : TreePath)
    → left_of p q ≡ true
    → left_of (p ++ true ∷ []) q ≡ false
    → left_of p (q ++ false ∷ []) ≡ true
either_child [] [] h k = ground arith
either_child [] (true ∷ q) h k = refl
either_child [] (false ∷ q) h k = ground arith
either_child (true ∷ p) [] h k = ground arith
either_child (false ∷ p) [] h k = ground arith
either_child (true ∷ p) (true ∷ q) h k = either_child p q h k
either_child (false ∷ p) (false ∷ q) h k = either_child p q h k
either_child (true ∷ p) (false ∷ q) h k = ground arith
either_child (false ∷ p) (true ∷ q) h k = refl

middle-above : (p q : Option TreePath) → ordered p q ≡ true → above tree_keys p (middle p q) ≡ true
unfolding above
middle-above none q h = refl
middle-above (some p) none h = right_child p
middle-above (some p) (some q) h = ground (arith, right_child p, either_child p q)

middle-below : (p q : Option TreePath) → ordered p q ≡ true → below tree_keys (middle p q) q ≡ true
unfolding below
middle-below p none h = ground arith
middle-below none (some q) h = left_child q
middle-below (some p) (some q) h = ground (arith, left_child q)

add_path-some :
    (k : TreePath) (o : Option (List TreePath)) (ks : List TreePath)
    → add_path k o ≡ some ks
    → (rest : List TreePath) × (o ≡ some rest) × (k ∷ rest ≡ ks)
add_path-some k none ks h = ground arith
add_path-some k (some rest) ks h = (rest, refl, ground arith)

paths-Rising :
    (p q : Option TreePath) (n : ℕ) (ks : List TreePath)
    → paths_between p q n ≡ some ks
    → (length ks ≡ n) × Rising tree_keys p ks q
paths-Rising p q zero [] h = (refl, tt)
paths-Rising p q zero (k ∷ ks) h = ground arith
paths-Rising p q (suc n) ks h = elim (Bool-cases (ordered p q)) [
  | inl b ↦
      let (rest, e, e') =
        add_path-some (middle p q) (paths_between (some (middle p q)) q n) ks (ground arith) in
      let (l, r) = paths-Rising (some (middle p q)) q n rest e in
      subst (λ ks. (length ks ≡ suc n) × Rising tree_keys p ks q) e'
        (ap suc l, (middle-above p q b, middle-below p q b, r))
  | inr b ↦ ground arith
]

ordered-below : (p : TreePath) (q : Option TreePath) → ordered (some p) q ≡ below tree_keys p q
unfolding below
ordered-below p none = refl
ordered-below p (some q) = refl

paths_given :
    (p : TreePath) (q : Option TreePath) (n : ℕ)
    → below tree_keys p q ≡ true
    → paths_between (some p) q n ≢ none
paths_given p q zero h = ground (arith, ordered-below p q)
paths_given p q (suc n) h = ground (
  arith,
  ordered-below p q,
  paths_given (middle (some p) q) q n,
  middle-below (some p) q,
  Option-cases (paths_between (some (middle (some p) q)) q n),
)

paths_first : (n : ℕ) → paths_between none none n ≢ none
unfolding below
paths_first zero = ground arith
paths_first (suc n) =
    ground (arith, paths_given [] none n refl, Option-cases (paths_between (some []) none n))

pub tree_keys-Ok : KeysOk tree_keys
tree_keys-Ok = record {
  lt_irrefl = left_of_self;
  lt_trans = left_of_trans;
  lt_total = left_of_total;
  generate_rising = paths-Rising;
  generate_above = paths_given;
  generate_first = paths_first;
}

-- There is room before every path too.
pub tree_keys-before : (q : TreePath) (n : ℕ) → tree_keys.generate none (some q) n ≢ none
tree_keys-before q zero = ground arith
tree_keys-before q (suc n) = ground (
  arith,
  middle-below none (some q),
  paths_given (middle none (some q)) (some q) n,
  Option-cases (paths_between (some (middle none (some q))) (some q) n),
)
