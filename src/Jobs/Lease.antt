-- ===== src/Jobs/Lease.antt =====
-- A claimed row is held for its lease.
use Prim.Native.String.{String}
use critical_path_api.Prelude.{
  ℕ, ◌+◌, ◌≤◌, ◌≡◌, ◌≢◌, refl, inl, inr, Bool, not, ◌&&◌, List, [], ◌∷◌, some, map, arith, nat_eq,
  string_eq, ◌==◌, ==_iff, if◌then◌else◌, filter, contains, Bool-cases, Option-cases, leb,
}
use critical_path_api.Jobs.{
  Job, claim, claim_due_jobs, update_job, record_job_success, record_job_failure, enqueue_job,
  PeriodicJob, upsert_periodic, upsert_all, sync_periodic_jobs, lease_seconds, max_attempts,
  is_periodic,
}

-- What a statement at a time does to the table.
pub data Statement : Type 0 where
  claims : List ℕ → List String → ℕ → Statement
  succeeds : Job → Statement
  fails : Job → List ℕ → Statement
  enqueues : ℕ → String → ℕ → Statement
  syncs : List (ℕ × PeriodicJob) → List String → Statement

unfoldable pub execute : ℕ → Statement → List Job → List Job
execute now (claims locked kinds limit) table = (claim_due_jobs now locked kinds limit table).1
execute now (succeeds job) table = record_job_success now job table
execute now (fails job error) table = record_job_failure now job error table
execute now (enqueues fresh_id kind run_at) table = enqueue_job fresh_id kind run_at table
execute now (syncs periodic registered) table = sync_periodic_jobs now periodic registered table

pub execute_all : List (ℕ × Statement) → List Job → List Job
execute_all [] table = table
execute_all ((now, statement) ∷ rest) table = execute_all rest (execute now statement table)

-- Every row with the id waits until a time.
abbrev pub Waits : ℕ → ℕ → List Job → Type 0
Waits id time [] = Unit {0}
Waits id time (job ∷ table) = (job.id ≡ id → time ≤ job.run_at) × Waits id time table

-- A statement leaves the claim of a row alone: it ends no attempt at it, and makes no new row with
-- its id. Claims and schedules are as they come.
abbrev pub FreshIds : ℕ → List (ℕ × PeriodicJob) → Type 0
FreshIds id [] = Unit {0}
FreshIds id ((fresh_id, periodic) ∷ rest) = (fresh_id ≢ id) × FreshIds id rest

unfoldable pub Spares : ℕ → Statement → Type 0
Spares id (claims locked kinds limit) = Unit {0}
Spares id (succeeds job) = job.id ≢ id
Spares id (fails job error) = job.id ≢ id
Spares id (enqueues fresh_id kind run_at) = fresh_id ≢ id
Spares id (syncs periodic registered) = FreshIds id periodic

abbrev pub AllSpare : ℕ → ℕ → List (ℕ × Statement) → Type 0
AllSpare id since [] = Unit {0}
AllSpare id since ((now, statement) ∷ rest) =
    (since ≤ now) × Spares id statement × AllSpare id since rest

Waits-filter :
    (id time : ℕ) (keep : Job → Bool) (table : List Job)
    → Waits id time table
    → Waits id time (filter keep table)
unfolding filter
Waits-filter id time keep [] w = tt
Waits-filter id time keep (job ∷ table) w = ground (arith, Waits-filter id time keep table w.1)

-- A change of rows that keeps ids and moves no row that waits to before its time.
Waits-map :
    (id time : ℕ) (change : Job → Job) (table : List Job)
    → ((job : Job) → (change job).id ≡ job.id)
    → ((job : Job) → job.id ≡ id → time ≤ job.run_at → time ≤ (change job).run_at)
    → Waits id time table
    → Waits id time (map change table)
Waits-map id time change [] same later w = tt
Waits-map id time change (job ∷ table) same later w = (
  λ e. later job (omega (arith, same job, e)) (w.0 (omega (arith, same job, e))),
  Waits-map id time change table same later w.1,
)

Waits-update :
    (id time other : ℕ) (change : Job → Job) (table : List Job)
    → other ≢ id
    → ((job : Job) → (change job).id ≡ job.id)
    → Waits id time table
    → Waits id time (update_job other change table)
unfolding update_job
Waits-update id time other change [] ne same w = tt
Waits-update id time other change (job ∷ table) ne same w =
    ground
      (arith, Waits-update id time other change table ne same w.1, same job, ==_iff job.id other)

Waits-claim :
    (id time now : ℕ) (claimed : List ℕ) (table : List Job)
    → time ≤ now + lease_seconds
    → Waits id time table
    → Waits id time (map (λ job. if contains claimed job.id then claim now job else job) table)
unfolding claim
Waits-claim id time now claimed [] le w = tt
Waits-claim id time now claimed (job ∷ table) le w =
    ground (arith, Waits-claim id time now claimed table le w.1)

Waits-upsert :
    (id time now fresh_id : ℕ) (periodic : PeriodicJob) (table : List Job)
    → fresh_id ≢ id
    → Waits id time table
    → Waits id time (upsert_periodic now fresh_id periodic table)
unfolding upsert_periodic
Waits-upsert id time now fresh_id periodic table ne w = ground (
  arith,
  Waits-map id time
      (λ job.
        if is_periodic job && string_eq.beq job.kind periodic.kind
        then record job { interval_seconds = some periodic.interval_seconds }
        else job)
      table (λ job. ground arith) (λ job e le. ground arith) w,
)

Waits-upsert_all :
    (id time now : ℕ) (periodic : List (ℕ × PeriodicJob)) (table : List Job)
    → FreshIds id periodic
    → Waits id time table
    → Waits id time (upsert_all now periodic table)
unfolding upsert_all
Waits-upsert_all id time now [] table f w = w
Waits-upsert_all id time now ((fresh_id, p) ∷ rest) table f w =
    Waits-upsert_all id time now rest (upsert_periodic now fresh_id p table) f.1
      (Waits-upsert id time now fresh_id p table f.0 w)

Waits-execute :
    (id since now : ℕ) (statement : Statement) (table : List Job)
    → since ≤ now
    → Spares id statement
    → Waits id (since + lease_seconds) table
    → Waits id (since + lease_seconds) (execute now statement table)
unfolding execute Spares claim_due_jobs record_job_success record_job_failure enqueue_job
    sync_periodic_jobs
Waits-execute id since now (claims locked [] limit) table le sp w = w
Waits-execute id since now (claims locked (kind ∷ kinds) limit) table le sp w =
    Waits-claim id (since + lease_seconds) now _ table (omega arith) w
Waits-execute id since now (succeeds job) table le sp w = elim (Option-cases job.interval_seconds) [
  | inl e ↦ rw (e, record_job_success) (Waits-filter id _ (λ row. not (row.id == job.id)) table w)
  | inr (i, e) ↦ rw (e, record_job_success) (Waits-update id _ job.id _ table sp (λ row. refl) w)
]
Waits-execute id since now (fails job error) table le sp w =
    elim (Option-cases job.interval_seconds) [
      | inl e ↦ elim (Bool-cases (leb max_attempts job.attempts)) [
        | inl b ↦
            rw (e, record_job_failure, b) (Waits-update id _ job.id _ table sp (λ row. refl) w)
        | inr b ↦
            rw (e, record_job_failure, b) (Waits-update id _ job.id _ table sp (λ row. refl) w)
      ]
      | inr (i, e) ↦
          rw (e, record_job_failure) (Waits-update id _ job.id _ table sp (λ row. refl) w)
    ]
Waits-execute id since now (enqueues fresh_id kind run_at) table le sp w = (λ e. absurd (sp e), w)
Waits-execute id since now (syncs periodic registered) table le sp w =
    Waits-filter id (since + lease_seconds) _ (upsert_all now periodic table)
      (Waits-upsert_all id (since + lease_seconds) now periodic table sp w)

pub Waits-execute_all :
    (id since : ℕ) (statements : List (ℕ × Statement)) (table : List Job)
    → AllSpare id since statements
    → Waits id (since + lease_seconds) table
    → Waits id (since + lease_seconds) (execute_all statements table)
unfolding execute_all
Waits-execute_all id since [] table a w = w
Waits-execute_all id since ((now, statement) ∷ rest) table (le, sp, a) w =
    Waits-execute_all id since rest (execute now statement table) a
      (Waits-execute id since now statement table le sp w)
