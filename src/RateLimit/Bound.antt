-- ===== src/RateLimit/Bound.antt =====
-- No key is spent beyond its maximum.
use Prim.Native.String.{String}
use text.Mathlib.TextEquality.{eq_iff}
use critical_path_api.Prelude.{
  ℕ, ◌≤◌, ◌<◌, ◌≡◌, subst, inl, inr, true, List, [], ◌∷◌, arith, string_eq, contains,
  count-Distinct, Distinct, lookup, Unique, Bool-cases,
}
use critical_path_api.RateLimit.{
  Limiter, Budget, unconfigured, sweep, spent, consume_budgets, reset_rate_limiter,
}
use critical_path_api.RateLimit.Spend.{same, sweep-Unique, spent-le}
use critical_path_api.RateLimit.Atomic.{
  keys, HasRoom, HasSpan, first_full_cases, spends-Unique, local_admit, local_refuse,
  consume_budgets-all_or_nothing,
}

-- The maximum that a budget names is the one that its key always has.
abbrev pub Follows : (String → ℕ) → List Budget → Type 0
Follows most [] = Unit {0}
Follows most (b ∷ bs) = (b.max ≡ most b.key) × Follows most bs

room_of_key :
    (most : String → ℕ) (now : ℕ) (l : Limiter) (bs : List Budget) (k : String)
    → Follows most bs
    → HasRoom now l bs
    → contains (keys bs) k ≡ true
    → spent now l k < most k
unfolding contains
room_of_key most now l [] k f h m = cc
room_of_key most now l (b ∷ bs) k f h m = elim (Bool-cases (same b.key k)) [
  | inl e ↦ subst (λ x. spent now l x < most x) ((eq_iff b.key k).0 e) (omega (arith, h.0, f.0))
  | inr e ↦ room_of_key most now l bs k f.1 h.1 (ground arith)
]

-- No key has spent more than its maximum.
pub record IsBounded (most : String → ℕ) (now : ℕ) (l : Limiter) : Type 0 where
  pub unique : Unique l.windows
  pub bounded : (k : String) → spent now l k ≤ most k

pub consume-Unique :
    (now : ℕ) (bs : List Budget) (l : Limiter)
    → Unique l.windows
    → Unique (consume_budgets unconfigured now bs l).1.windows
unfolding consume_budgets
consume-Unique now bs l u = elim (first_full_cases now (sweep now l) bs 0) [
  | inl (e, _) ↦
      rw (local_admit now bs l e) (spends-Unique now (sweep now l) bs (sweep-Unique now l u))
  | inr (n, e, _) ↦ rw (local_refuse now bs l n e) (sweep-Unique now l u)
]

-- Without a shared verdict, an attempt at a time no earlier than the last keeps every key within its
-- maximum, where the attempt names no key twice, its windows are not empty, and each of its budgets
-- has the maximum of its key.
pub consume_budgets-IsBounded :
    (most : String → ℕ) (before now : ℕ) (bs : List Budget) (l : Limiter)
    → before ≤ now
    → HasSpan bs
    → Follows most bs
    → Distinct (keys bs)
    → IsBounded most before l
    → IsBounded most now (consume_budgets unconfigured now bs l).1
consume_budgets-IsBounded most before now bs l le span follows distinct h = record {
  unique = consume-Unique now bs l h.unique;
  bounded = λ k. elim (consume_budgets-all_or_nothing now bs l h.unique span) [
    | inl (_, a) ↦ ground (
      arith,
      a.taken k,
      room_of_key most now l bs k follows a.room,
      count-Distinct (keys bs) k distinct,
      h.bounded k,
      spent-le before now l k le,
    )
    | inr (n, b, _, _, r) ↦
        omega (arith, r.kept now k (omega arith), h.bounded k, spent-le before now l k le)
  ];
}

-- Attempts in the order of their times.
pub run : List (ℕ × List Budget) → Limiter → Limiter
run [] l = l
run ((now, bs) ∷ rest) l = run rest (consume_budgets unconfigured now bs l).1

abbrev pub Allowed : (String → ℕ) → ℕ → List (ℕ × List Budget) → Type 0
Allowed most before [] = Unit {0}
Allowed most before ((now, bs) ∷ rest) =
    (before ≤ now) × HasSpan bs × Follows most bs × Distinct (keys bs) × Allowed most now rest

abbrev pub last_time : ℕ → List (ℕ × List Budget) → ℕ
last_time before [] = before
last_time before ((now, _) ∷ rest) = last_time now rest

run-IsBounded :
    (most : String → ℕ) (before : ℕ) (attempts : List (ℕ × List Budget)) (l : Limiter)
    → Allowed most before attempts
    → IsBounded most before l
    → IsBounded most (last_time before attempts) (run attempts l)
unfolding run
run-IsBounded most before [] l a h = h
run-IsBounded most before ((now, bs) ∷ rest) l (le, span, follows, distinct, later) h =
    run-IsBounded most now rest (consume_budgets unconfigured now bs l).1 later
      (consume_budgets-IsBounded most before now bs l le span follows distinct h)

-- After any history of attempts at rising times, from a limiter that was just reset and without
-- shared verdicts, no key has spent more than its maximum in its current window, where no attempt
-- names a key twice, windows are not empty, and each budget has the maximum of its key.
pub run-reset-bounded :
    (most : String → ℕ) (attempts : List (ℕ × List Budget)) (k : String)
    → Allowed most 0 attempts
    → spent (last_time 0 attempts) (run attempts reset_rate_limiter) k ≤ most k
unfolding reset_rate_limiter spent lookup
run-reset-bounded most attempts k a =
    (run-IsBounded most 0 attempts reset_rate_limiter a
        (record { unique = tt; bounded = λ j. omega arith })).bounded
      k
