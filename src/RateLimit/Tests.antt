-- ===== src/RateLimit/Tests.antt =====
-- The limiter's theorems at inputs.
use Prim.Native.String.{String}
use critical_path_api.Prelude.{
  ◌<◌, ℕ, ◌+◌, ◌≤◌, ◌≡◌, refl, ◌⊎◌, List, [], ◌∷◌, none, some, arith, string_eq, if◌then◌else◌,
  get_elem?, lookup, count, contains, Unique, Distinct,
}
use critical_path_api.RateLimit.{
  Limiter, Budget, unconfigured, spent, first_full, consume_budgets_local, consume_budgets,
  refund_budgets, consume_rate_limit, peek_rate_limit, reset_rate_limiter,
}
use critical_path_api.RateLimit.Atomic.{
  keys, Admits, Refuses, consume_budgets-all_or_nothing, refund_budgets-consume_budgets,
}
use critical_path_api.RateLimit.Bound.{
  IsBounded, run, last_time, consume_budgets-IsBounded, run-reset-bounded,
}
use critical_path_api.RateLimit.Enforce.{too_many, enforce_auth_rate_limit}
use critical_path_api.RateLimit.Limits.{
  enforce_auth_rate_limit-atomic, peek_rate_limit-consume_rate_limit,
}

abbrev one : Budget
one = record { key = "a"; max = 2; window_ms = 1000 }

abbrev other : Budget
other = record { key = "b"; max = 1; window_ms = 5000 }

abbrev pair : List Budget
pair = one ∷ other ∷ []

-- One attempt each was made at time 100.
abbrev used : Limiter
used = record {
  windows =
      ("a", record { count = 1; reset_at = 1100 })
      ∷ ("b", record { count = 1; reset_at = 5100 })
      ∷ [];
  last_sweep = 0;
}

used-Unique : Unique used.windows
unfolding lookup
used-Unique = (refl, (refl, tt))

second_attempt : (consume_budgets unconfigured 200 pair used).0 ≡ some other
unfolding consume_budgets consume_budgets_local first_full spent lookup
second_attempt = refl

later_attempt : (consume_budgets unconfigured 5100 pair used).0 ≡ none
unfolding consume_budgets consume_budgets_local first_full spent lookup
later_attempt = refl

consume_budgets-all_or_nothing_example :
    let (refused, l') = consume_budgets unconfigured 200 pair used in
    ((refused ≡ none) × Admits 200 pair used l')
    ⊎ ((n : ℕ) × (b : Budget) × (get_elem? pair n ≡ some b)
        × (refused ≡ some b)
        × Refuses 200 pair used l' n)
consume_budgets-all_or_nothing_example =
    consume_budgets-all_or_nothing 200 pair used used-Unique (omega arith)

refund_budgets-consume_budgets_example :
    spent 5100
      (refund_budgets unconfigured 5100 pair (consume_budgets unconfigured 5100 pair used).1)
      "a"
    ≡ spent 5100 used "a"
refund_budgets-consume_budgets_example =
    refund_budgets-consume_budgets 5100 pair used "a" used-Unique (omega arith) later_attempt

abbrev most : String → ℕ
most k = if string_eq.beq k "a" then 2 else 1

reset-IsBounded : IsBounded most 0 reset_rate_limiter
unfolding reset_rate_limiter spent lookup
reset-IsBounded = record { unique = tt; bounded = λ k. omega arith }

pair-Distinct : Distinct (keys pair)
unfolding contains
pair-Distinct = (refl, (refl, tt))

consume_budgets-IsBounded_example :
    IsBounded most 300 (consume_budgets unconfigured 300 pair reset_rate_limiter).1
consume_budgets-IsBounded_example =
    consume_budgets-IsBounded most 0 300 pair reset_rate_limiter (omega arith) (omega arith)
      (refl, (refl, tt)) pair-Distinct reset-IsBounded

one-Distinct : Distinct (keys (one ∷ []))
unfolding contains
one-Distinct = (refl, tt)

abbrev attempts : List (ℕ × List Budget)
attempts = (100, pair) ∷ (200, pair) ∷ (300, one ∷ []) ∷ []

run-reset-bounded_example :
    spent (last_time 0 attempts) (run attempts reset_rate_limiter) "a" ≤ most "a"
run-reset-bounded_example = run-reset-bounded most attempts "a" (
  omega arith,
  omega arith,
  (refl, (refl, tt)),
  pair-Distinct,
  (
    omega arith,
    omega arith,
    (refl, (refl, tt)),
    pair-Distinct,
    (omega arith, omega arith, (refl, tt), one-Distinct, tt),
  ),
)

enforce_auth_rate_limit-atomic_example :
    let (error, l') = enforce_auth_rate_limit unconfigured "10.0.0.1" "a@b.c" 200 used in
    let both : String = "ip:10.0.0.1:a@b.c" in
    let account : String = "email:a@b.c" in
    let host : String = "auth-ip:10.0.0.1" in
    ((error ≡ none)
      × (spent 200 used both < 10)
      × (spent 200 used account < 30)
      × (spent 200 used host < 300)
      × ((k : String) → spent 200 l' k ≡ spent 200 used k + count (both ∷ account ∷ host ∷ []) k))
    ⊎ ((error ≡ too_many "Too many attempts, please try again later")
        × ((10 ≤ spent 200 used both)
            ⊎ ((30 ≤ spent 200 used account) ⊎ (300 ≤ spent 200 used host)))
        × ((t : ℕ) (k : String) → 200 ≤ t → spent t l' k ≡ spent t used k))
enforce_auth_rate_limit-atomic_example =
    enforce_auth_rate_limit-atomic "10.0.0.1" "a@b.c" 200 used used-Unique

peek_rate_limit-consume_rate_limit_example :
    peek_rate_limit none "b" 200 1 used ≡ (consume_rate_limit unconfigured "b" 200 1 5000 used).0
peek_rate_limit-consume_rate_limit_example =
    peek_rate_limit-consume_rate_limit "b" 200 1 5000 used (omega arith) (omega arith) used-Unique
