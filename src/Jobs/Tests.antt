-- ===== src/Jobs/Tests.antt =====
-- The queue's theorems at inputs.
use Prim.Native.String.{String}
use critical_path_api.Prelude.{
  ℕ, ◌+◌, ◌≤◌, ◌≡◌, refl, true, false, List, [], ◌∷◌, none, some, arith, nat_eq, string_eq, leb,
  if◌then◌else◌, length, filter, find, contains,
}
use critical_path_api.Jobs.{
  pending, failed, Job, is_pending, is_due, by_run_at, insert_due, claim, claim_due_jobs,
  PeriodicJob, sync_periodic_jobs, is_periodic, max_attempts,
}
use critical_path_api.Jobs.Lease.{Statement, claims, fails, execute_all, AllSpare, Spares}
use critical_path_api.Jobs.Claims.{ids, claim_due_jobs-exclusive}
use critical_path_api.Jobs.Retries.{row, Failure, fail_rounds, fail_rounds-ends}
use critical_path_api.Jobs.Periodic.{schedules, sync_periodic_jobs-schedules}
use critical_path_api.Jobs.Worker.{
  is_reset, Slots, runner_count, Step, claim_limit, idle, start_tick, here, next, starts, Balanced,
  Reached-Balanced,
}

abbrev mail : Job
mail = record {
  id = 1;
  kind = "mail";
  interval_seconds = none;
  status = pending;
  run_at = 100;
  attempts = 0;
  last_error = none;
}

abbrev sweep : Job
sweep = record {
  id = 2;
  kind = "sweep";
  interval_seconds = some 300;
  status = pending;
  run_at = 50;
  attempts = 0;
  last_error = none;
}

abbrev table : List Job
table = mail ∷ sweep ∷ []

abbrev kinds : List String
kinds = "mail" ∷ "sweep" ∷ []

-- Only the row that is due first is claimed.
oldest_first : (claim_due_jobs 120 [] kinds 1 table).0 ≡ claim 120 sweep ∷ []
unfolding claim_due_jobs by_run_at insert_due is_due is_pending claim filter contains
oldest_first = refl

mail_claimed : contains (ids (claim_due_jobs 120 [] kinds 2 table).0) 1 ≡ true
unfolding claim_due_jobs by_run_at insert_due is_due is_pending claim filter contains
mail_claimed = refl

abbrev statements : List (ℕ × Statement)
statements = (130, claims [] kinds 8) ∷ (150, fails (claim 120 sweep) (7 ∷ [])) ∷ []

statements_spare : AllSpare 1 120 statements
unfolding Spares claim
statements_spare = omega arith

claim_due_jobs-exclusive_example :
    let after = execute_all statements (claim_due_jobs 120 [] kinds 2 table).1 in
    contains (ids (claim_due_jobs 170 [] kinds 8 after).0) 1 ≡ false
claim_due_jobs-exclusive_example =
    claim_due_jobs-exclusive 1 120 170 2 8 [] [] kinds kinds statements table mail_claimed
      statements_spare (omega arith)

abbrev failure_at : ℕ → Failure
failure_at t = record { claimed_at = t; failed_at = t + 5; error = 7 ∷ [] }

abbrev failures : List Failure
failures =
    failure_at 100
    ∷ failure_at 200
    ∷ failure_at 400
    ∷ failure_at 1100
    ∷ failure_at 5000
    ∷ failure_at 30000
    ∷ []

row-mail : row 1 table ≡ some mail
unfolding row find
row-mail = refl

fail_rounds-ends_example :
    (job : Job) × (row 1 (fail_rounds 1 failures table) ≡ some job)
    × (job.attempts ≡ length failures)
    × (job.status ≡ (if leb max_attempts (length failures) then failed else pending))
    × (length failures ≡ max_attempts → is_due 99999 kinds [] job ≡ false)
fail_rounds-ends_example =
    fail_rounds-ends 1 99999 failures table mail kinds [] row-mail refl refl refl refl (omega arith)

abbrev digest : PeriodicJob
digest = record { kind = "digest"; interval_seconds = 600 }

one_sweep : schedules "sweep" table ≤ 1
unfolding schedules is_periodic filter
one_sweep = omega arith

sync_periodic_jobs-schedules_example :
    schedules "sweep" (sync_periodic_jobs 120 ((3, digest) ∷ []) kinds table) ≡ (
      if contains {A = String} (digest.kind ∷ []) "sweep"
      then 1
      else (if contains kinds "sweep" then 0 else schedules "sweep" table))
sync_periodic_jobs-schedules_example =
    sync_periodic_jobs-schedules 120 "sweep" ((3, digest) ∷ []) kinds table one_sweep

-- A tick has started, and its claim has returned one row.
abbrev after_claim : Slots
after_claim = record { taken = 4; freed = 3; ticks = 1 ∷ []; overrunning = 0 }

Reached-Balanced_example : Balanced (start_tick after_claim)
unfolding idle start_tick runner_count claim_limit is_reset
Reached-Balanced_example = Reached-Balanced (start_tick after_claim) (
    next (next (next here (starts idle)) (Step.claims 4 0 4 1 0 [] [] (omega arith)))
      (starts after_claim))
