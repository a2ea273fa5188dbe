-- ===== src/Jobs/Worker.antt =====
-- api/src/services/jobs/worker.ts: the slots that overlapping ticks of one process share. A slot is
-- held until the runners of its tick are done; a handler that overran its timeout holds none.
use critical_path_api.Prelude.{
  ℕ, ◌+◌, ◌-◌, ◌*◌, ◌/◌, ◌≤◌, ◌≡◌, refl, min, List, [], ◌∷◌, ◌++◌, arith, ◌==◌, if◌then◌else◌, suc,
  Bool, true, false, ◌||◌,
}

abbrev pub claim_batch : ℕ
claim_batch = 8

abbrev pub max_concurrent_jobs : ℕ
max_concurrent_jobs = 4

abbrev pub max_handler_timeout_ms : ℕ
max_handler_timeout_ms = 20000

-- `Math.ceil(CLAIM_BATCH / MAX_CONCURRENT_JOBS)`
abbrev pub rounds_per_tick : ℕ
rounds_per_tick = (claim_batch + max_concurrent_jobs - 1) / max_concurrent_jobs

abbrev pub tick_budget_ms : ℕ
tick_budget_ms = 45000

-- `inFlight` is `taken - freed`, which a reset can leave below 0: `+=` adds to the first and `-=` to
-- the second. Beside it stand the slots that each tick under way holds, and the handlers that their
-- runners no longer wait for.
pub record Slots : Type 0 where
  pub taken : ℕ
  pub freed : ℕ
  pub ticks : List ℕ
  pub overrunning : ℕ

unfoldable pub idle : Slots
idle = record { taken = 0; freed = 0; ticks = []; overrunning = 0 }

-- `resetInFlightJobs`, which only tests call: the ticks keep their slots.
pub reset_in_flight_jobs : Slots → Slots
reset_in_flight_jobs s = record s { taken = 0; freed = 0 }

-- The head of `runDueJobs`, up to the claim: where `MAX_CONCURRENT_JOBS - inFlight` is not above 0
-- nothing starts.
unfoldable pub start_tick : Slots → Slots
start_tick s =
    let held = max_concurrent_jobs + s.freed - s.taken in
    if held == 0 then s else record s { taken = s.taken + held; ticks = held ∷ s.ticks }

-- How many rows a tick with so many slots asks for, and how many runners it starts.
unfoldable pub claim_limit : ℕ → ℕ
claim_limit held = min claim_batch (held * rounds_per_tick)

unfoldable pub runner_count : ℕ → ℕ → ℕ
runner_count held claimed = min held claimed

-- What happens to the slots. Ticks overlap in any order.
pub data Step : Slots → Slots → Type 0 where
  starts : (s : Slots) → Step s (start_tick s)
  -- The claim returned: `inFlight -= held - runnerCount; held = runnerCount`.
  claims :
      (n m held claimed late : ℕ) (before after : List ℕ)
      → claimed ≤ claim_limit held
      → Step
          (record { taken = n; freed = m; ticks = before ++ held ∷ after; overrunning = late })
          (record {
            taken = n;
            freed = m + (held - runner_count held claimed);
            ticks = before ++ runner_count held claimed ∷ after;
            overrunning = late;
          })
  -- `withTimeout` gave up on a handler, which runs on while the runner takes the next job.
  overruns : (s : Slots) → Step s (record s { overrunning = suc s.overrunning })
  -- A handler that was given up ended.
  returns :
      (n m late : ℕ) (ticks : List ℕ)
      → Step
          (record { taken = n; freed = m; ticks = ticks; overrunning = suc late })
          (record { taken = n; freed = m; ticks = ticks; overrunning = late })
  -- The last runner ended, or the claim threw: `finally { inFlight -= held }`.
  ends :
      (n m held late : ℕ) (before after : List ℕ)
      → Step
          (record { taken = n; freed = m; ticks = before ++ held ∷ after; overrunning = late })
          (record { taken = n; freed = m + held; ticks = before ++ after; overrunning = late })
  resets : (s : Slots) → Step s (reset_in_flight_jobs s)

-- Is the step a reset of the counter?
unfoldable pub is_reset : {s t : Slots} → Step s t → Bool
is_reset (starts s) = false
is_reset (claims n m held claimed late before after le) = false
is_reset (overruns s) = false
is_reset (returns n m late ticks) = false
is_reset (ends n m held late before after) = false
is_reset (resets s) = true

-- The states that steps lead to from the start, the counter having been reset or not.
pub data Reached : Bool → Slots → Type 0 where
  here : Reached false idle
  next : {b : Bool} {s t : Slots} → Reached b s → (st : Step s t) → Reached (b || is_reset st) t

pub total : List ℕ → ℕ
total [] = 0
total (held ∷ ticks) = held + total ticks

pub record Balanced (s : Slots) : Type 0 where
  pub counted : s.taken ≡ s.freed + total s.ticks
  pub few : total s.ticks ≤ max_concurrent_jobs

total-append : (xs ys : List ℕ) → total (xs ++ ys) ≡ total xs + total ys
unfolding total
total-append [] ys = omega arith
total-append (x ∷ xs) ys = omega (arith, total-append xs ys)

start_tick-Balanced : (s : Slots) → Balanced s → Balanced (start_tick s)
unfolding start_tick total
start_tick-Balanced s b = ground arith

Step-Balanced : {s t : Slots} → (st : Step s t) → is_reset st ≡ false → Balanced s → Balanced t
unfolding total runner_count is_reset
Step-Balanced (starts s) h b = start_tick-Balanced s b
Step-Balanced (claims n m held claimed late before after le) h b = ground (
  arith,
  total-append before (held ∷ after),
  total-append before (runner_count held claimed ∷ after),
  b.counted,
  b.few,
)
Step-Balanced (overruns s) h b = record { counted = b.counted; few = b.few }
Step-Balanced (returns n m late ticks) h b = record { counted = b.counted; few = b.few }
Step-Balanced (ends n m held late before after) h b =
    ground (arith, total-append before (held ∷ after), total-append before after, b.counted, b.few)
Step-Balanced (resets s) h b = ground arith

Reached-balances : (b : Bool) (s : Slots) → Reached b s → b ≡ false → Balanced s
unfolding idle total
Reached-balances _ _ here h = record { counted = refl; few = omega arith }
Reached-balances _ _ (next {b} r st) h =
    Step-Balanced st (ground arith) (Reached-balances b _ r (ground arith))

-- However ticks overlap, and whatever handlers run on after their timeout, as long as the counter
-- is not reset the ticks that are under way hold at most four slots between them, and the counter
-- says how many.
pub Reached-Balanced : (s : Slots) → Reached false s → Balanced s
Reached-Balanced s r = Reached-balances false s r refl

-- Runners that share the rows of a claim need at most two rounds of handlers, which fit the budget
-- of the tick.
pub runner_count-fits :
    (held claimed : ℕ)
    → claimed ≤ claim_limit held
    → (claimed ≤ runner_count held claimed * rounds_per_tick)
      × (rounds_per_tick * max_handler_timeout_ms ≤ tick_budget_ms)
unfolding runner_count claim_limit
runner_count-fits held claimed le = ground arith
