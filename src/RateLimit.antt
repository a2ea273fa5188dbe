-- ===== src/RateLimit.antt =====
-- api/src/services/rateLimit.ts: budgets of attempts, spent together.
--
-- Time is in milliseconds and an argument of each call, as `now` is in the code. The state is the
-- module's own: the windows of the process and the time of the last sweep. Redis stands behind
-- `runShared`, whose scripts run there: its reply is an argument (`Reply`), and the code below is
-- what the process does with it and what it does alone when there is none.
pub mod Spend
pub mod Atomic
pub mod Bound
pub mod Enforce
pub mod Limits
mod Tests
use Prim.Native.String.{String}
use critical_path_api.Prelude.{
  ℕ, zero, suc, ◌+◌, ◌-◌, ◌*◌, Bool, true, false, ◌&&◌, ◌||◌, List, [], ◌∷◌, map, foldl, Option,
  none, some, string_eq, ◌==◌, ltb, leb, if◌then◌else◌, length, get_elem?, Map, lookup, insert,
}

abbrev pub window_ms : ℕ
window_ms = 60000

abbrev pub max_attempts : ℕ
max_attempts = 10

pub record Window : Type 0 where
  pub count : ℕ
  pub reset_at : ℕ

pub record Limiter : Type 0 where
  pub windows : Map String Window
  pub last_sweep : ℕ

pub record Budget : Type 0 where
  pub key : String
  pub max : ℕ
  pub window_ms : ℕ

-- The loop of `sweep`: windows that have passed are deleted.
pub drop_passed : ℕ → Map String Window → Map String Window
drop_passed now [] = []
drop_passed now ((key, window) ∷ rest) =
    let kept = drop_passed now rest in
    if leb window.reset_at now then kept else (key, window) ∷ kept

pub sweep : ℕ → Limiter → Limiter
unfolding drop_passed
sweep now l =
    if ltb (now - l.last_sweep) window_ms
    then l
    else record { windows = drop_passed now l.windows; last_sweep = now }

-- `window !== undefined && window.resetAt > now`
abbrev pub live : ℕ → Option Window → Option Window
live now none = none
live now (some window) = if ltb now window.reset_at then some window else none

-- What a key has spent: a window that is absent or past counts as zero.
pub spent : ℕ → Limiter → String → ℕ
spent now l key = elim (live now (lookup key l.windows)) [ none ↦ 0 | some window ↦ window.count ]

-- The 1-based position of the first full budget, or 0.
pub first_full : ℕ → Limiter → List Budget → ℕ → ℕ
first_full now l [] index = 0
first_full now l (budget ∷ budgets) index =
    let rest = first_full now l budgets (index + 1) in
    if leb budget.max (spent now l budget.key) then index + 1 else rest

-- The second loop's body: a new window, or one more in the old.
pub spend : ℕ → Limiter → Budget → Limiter
spend now l budget = elim (live now (lookup budget.key l.windows)) [
  | none ↦ record l {
    windows = insert budget.key (record { count = 1; reset_at = now + budget.window_ms }) l.windows;
  }
  | some window ↦ record l {
    windows = insert budget.key (record window { count = window.count + 1 }) l.windows;
  }
]

pub consume_budgets_local : ℕ → List Budget → Limiter → ℕ × Limiter
unfolding sweep first_full spend
consume_budgets_local now budgets l =
    let swept = sweep now l in
    let refused = first_full now swept budgets 0 in
    if refused == 0 then (0, foldl (spend now) swept budgets) else (refused, swept)

-- What comes back of a script: Redis is not configured, the call failed, or it answered.
pub data Reply : Type 0 where
  unconfigured failed : Reply
  number : ℕ → Reply
  other : Reply

-- `null` means that there is no shared verdict.
pub run_shared : Reply → List Budget → Option ℕ
run_shared unconfigured budgets = none
run_shared failed budgets = none
run_shared (number n) budgets = if ltb (length budgets) n then none else some n
run_shared other budgets = none

abbrev pub refused_budget : ℕ → List Budget → Option Budget
refused_budget refused budgets = if refused == 0 then none else get_elem? budgets (refused - 1)

-- The result is the budget that refuses, if one does.
pub consume_budgets : Reply → ℕ → List Budget → Limiter → Option Budget × Limiter
unfolding consume_budgets_local run_shared
consume_budgets reply now budgets l = elim (run_shared reply budgets) [
  | some refused ↦ (refused_budget refused budgets, l)
  | none ↦
      let (refused, l') = consume_budgets_local now budgets l in
      (refused_budget refused budgets, l')
]

pub refund : ℕ → Limiter → Budget → Limiter
refund now l budget = elim (live now (lookup budget.key l.windows)) [
  | none ↦ l
  | some window ↦
      if ltb 0 window.count
      then record l {
        windows = insert budget.key (record window { count = window.count - 1 }) l.windows;
      }
      else l
]

pub refund_budgets : Reply → ℕ → List Budget → Limiter → Limiter
unfolding run_shared refund
refund_budgets reply now budgets l = elim (run_shared reply budgets) [
  | some _ ↦ l
  | none ↦ foldl (refund now) l budgets
]

pub consume_rate_limit : Reply → String → ℕ → ℕ → ℕ → Limiter → Bool × Limiter
unfolding consume_budgets
consume_rate_limit reply key now most span l =
    let budget : Budget = record { key = key; max = most; window_ms = span } in
    let (refused, l') = consume_budgets reply now (budget ∷ []) l in
    (elim refused [ none ↦ true | some _ ↦ false ], l')

-- The count that Redis holds for a key, when it answers: `none` is no verdict, and `some none` a
-- key that is not there.
pub peek_rate_limit : Option (Option ℕ) → String → ℕ → ℕ → Limiter → Bool
peek_rate_limit (some none) key now most l = true
peek_rate_limit (some (some count)) key now most l = ltb count most
peek_rate_limit none key now most l = elim (lookup key l.windows) [
  | none ↦ true
  | some window ↦ leb window.reset_at now || ltb window.count most
]

pub reset_rate_limiter : Limiter
reset_rate_limiter = record { windows = []; last_sweep = 0 }
