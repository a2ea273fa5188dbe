-- ===== src/RateLimit/Spend.antt =====
-- What a key has spent, before and after each step.
use Prim.Native.String.{String}
use text.Mathlib.TextEquality.{eq_iff}
use critical_path_api.Prelude.{
  ℕ, ◌+◌, ◌-◌, ◌≤◌, ◌<◌, ◌≡◌, refl, inl, inr, Bool, [], ◌∷◌, Option, none, some, arith, string_eq,
  if◌then◌else◌, Map, lookup, insert, lookup-insert, Unique, insert-Unique, Bool-cases,
  Option-cases,
}
use critical_path_api.RateLimit.{
  Window, Limiter, Budget, drop_passed, sweep, live, spent, spend, refund,
}

abbrev pub same : String → String → Bool
same = string_eq.beq

drop_passed-none :
    (now : ℕ) (k : String) (m : Map String Window)
    → lookup k m ≡ none
    → lookup k (drop_passed now m) ≡ none
unfolding drop_passed lookup
drop_passed-none now k [] h = refl
drop_passed-none now k ((j, w) ∷ m) h = ground (arith, drop_passed-none now k m)

-- A sweep deletes no live window.
live-drop_passed :
    (now t : ℕ) (k : String) (m : Map String Window)
    → now ≤ t
    → Unique m
    → live t (lookup k (drop_passed now m)) ≡ live t (lookup k m)
unfolding drop_passed lookup
live-drop_passed now t k [] le u = refl
live-drop_passed now t k ((j, w) ∷ m) le u =
    ground (arith, live-drop_passed now t k m le u.1, drop_passed-none now k m, eq_iff j k)

drop_passed-Unique : (now : ℕ) (m : Map String Window) → Unique m → Unique (drop_passed now m)
unfolding drop_passed
drop_passed-Unique now [] u = tt
drop_passed-Unique now ((j, w) ∷ m) u =
    ground (arith, drop_passed-Unique now m u.1, drop_passed-none now j m u.0)

pub sweep-Unique : (now : ℕ) (l : Limiter) → Unique l.windows → Unique (sweep now l).windows
unfolding sweep
sweep-Unique now l u = ground (arith, drop_passed-Unique now l.windows u)

pub spent-sweep :
    (now t : ℕ) (l : Limiter) (k : String)
    → now ≤ t
    → Unique l.windows
    → spent t (sweep now l) k ≡ spent t l k
unfolding sweep spent
spent-sweep now t l k le u = ground (arith, live-drop_passed now t k l.windows le u)

-- As time passes, only windows end.
pub spent-le : (now t : ℕ) (l : Limiter) (k : String) → now ≤ t → spent t l k ≤ spent now l k
unfolding spent
spent-le now t l k le = ground arith

pub spend-Unique :
    (now : ℕ) (l : Limiter) (b : Budget) → Unique l.windows → Unique (spend now l b).windows
unfolding spend
spend-Unique now l b u = elim (Option-cases (live now (lookup b.key l.windows))) [
  | inl h ↦ rw (h, spend) (insert-Unique b.key _ l.windows u)
  | inr (w, h) ↦ rw (h, spend) (insert-Unique b.key _ l.windows u)
]

abbrev count_of : Option Window → ℕ
count_of none = 0
count_of (some w) = w.count

spent_lem :
    (now : ℕ) (l : Limiter) (k : String) → spent now l k ≡ count_of (live now (lookup k l.windows))
unfolding spent
spent_lem now l k = ground arith

-- A written window counts for its own key alone.
pub spent-insert :
    (t : ℕ) (l : Limiter) (key : String) (w : Window) (k : String)
    → spent t (record l { windows = insert key w l.windows }) k
      ≡ (if same key k then count_of (live t (some w)) else spent t l k)
unfolding spent
spent-insert t l key w k = elim (Bool-cases (same key k)) [
  | inl h ↦ rw (spent, lookup-insert key k w l.windows, h) (ground arith)
  | inr h ↦ rw (spent, lookup-insert key k w l.windows, h) (ground arith)
]

-- To spend a budget takes one attempt from its key and none from another.
pub spent-spend :
    (now : ℕ) (l : Limiter) (b : Budget) (k : String)
    → 0 < b.window_ms
    → spent now (spend now l b) k ≡ spent now l k + (if same b.key k then 1 else 0)
unfolding spend
spent-spend now l b k pos = elim (Option-cases (live now (lookup b.key l.windows))) [
  | inl h ↦
      rw (h, spend)
        (ground (
          arith,
          eq_iff b.key k,
          spent_lem now l k,
          spent-insert now l b.key (record { count = 1; reset_at = now + b.window_ms }) k,
        ))
  | inr (w, h) ↦
      rw (h, spend)
        (ground (
          arith,
          eq_iff b.key k,
          spent_lem now l k,
          spent-insert now l b.key (record w { count = w.count + 1 }) k,
        ))
]

-- A refund gives one attempt back to a key that has spent any.
pub spent-refund :
    (now : ℕ) (l : Limiter) (b : Budget) (k : String)
    → spent now (refund now l b) k ≡ spent now l k - (if same b.key k then 1 else 0)
unfolding refund
spent-refund now l b k = elim (Option-cases (live now (lookup b.key l.windows))) [
  | inl h ↦ rw (h, refund) (ground (arith, eq_iff b.key k, spent_lem now l k))
  | inr (w, h) ↦
      rw (h, refund)
        (ground (
          arith,
          eq_iff b.key k,
          spent_lem now l k,
          spent-insert now l b.key (record w { count = w.count - 1 }) k,
        ))
]
