-- ===== src/Jobs.antt =====
-- api/src/services/jobs/queue.ts: the table of jobs, and what claiming, finishing and failing a job
-- do to it, with the numbers of api/src/services/retryPolicy.ts. Times are seconds, and `now()` is
-- an argument. A statement sees the rows that no other statement has locked.
use Prim.Native.String.{String}
use critical_path_api.Prelude.{
  ℕ, ◌+◌, ◌-◌, min, Bool, true, false, not, ◌&&◌, List, [], ◌∷◌, Option, none, some, map, nat_eq,
  string_eq, ◌==◌, ltb, leb, if◌then◌else◌, length, take, filter, any, contains, get_elem?,
}
pub mod Lease
pub mod Claims
pub mod Retries
pub mod Periodic
pub mod Worker
mod Tests

abbrev pub backoff_seconds : List ℕ
backoff_seconds = 30 ∷ 120 ∷ 600 ∷ 3600 ∷ 21600 ∷ []

abbrev pub max_attempts : ℕ
max_attempts = length backoff_seconds + 1

abbrev pub lease_seconds : ℕ
lease_seconds = 60

abbrev pub max_error_chars : ℕ
max_error_chars = 2000

abbrev pub periodic_max_backoff_seconds : ℕ
periodic_max_backoff_seconds = 600

pub data JobStatus : Type 0 where
  pending failed : JobStatus

-- A row of the table, without its payload. An error text is the list of its characters.
pub record Job : Type 0 where
  pub id : ℕ
  pub kind : String
  pub interval_seconds : Option ℕ
  pub status : JobStatus
  pub run_at : ℕ
  pub attempts : ℕ
  pub last_error : Option (List ℕ)

pub is_pending : Job → Bool
is_pending job = elim job.status [ pending ↦ true | failed ↦ false ]

-- The `where` of the claim, and `skip locked`.
pub is_due : ℕ → List String → List ℕ → Job → Bool
is_due now kinds locked job =
    is_pending job
    && (leb job.run_at now && (contains kinds job.kind && not (contains locked job.id)))

-- `order by run_at`
pub insert_due : Job → List Job → List Job
insert_due job [] = job ∷ []
insert_due job (other ∷ jobs) =
    let rest = insert_due job jobs in
    if ltb other.run_at job.run_at then other ∷ rest else job ∷ other ∷ jobs

pub by_run_at : List Job → List Job
by_run_at [] = []
by_run_at (job ∷ jobs) = insert_due job (by_run_at jobs)

pub claim : ℕ → Job → Job
claim now job = record job { attempts = job.attempts + 1; run_at = now + lease_seconds }

-- The rows that the statement returns, and the table that it leaves.
pub claim_due_jobs : ℕ → List ℕ → List String → ℕ → List Job → List Job × List Job
claim_due_jobs now locked [] limit table = ([], table)
claim_due_jobs now locked (kind ∷ kinds) limit table =
    let claimed =
      map (λ job. job.id)
        (take limit (by_run_at (filter (is_due now (kind ∷ kinds) locked) table))) in
    (
      map (claim now) (filter (λ job. contains claimed job.id) table),
      map (λ job. if contains claimed job.id then claim now job else job) table,
    )

-- `update ... where id = id`
pub update_job : ℕ → (Job → Job) → List Job → List Job
update_job id change = map (λ job. if job.id == id then change job else job)

pub record_job_success : ℕ → Job → List Job → List Job
record_job_success now job table = elim job.interval_seconds [
  | none ↦ filter (λ row. not (row.id == job.id)) table
  | some interval ↦
      update_job job.id
        (λ row. record row { run_at = now + interval; attempts = 0; last_error = none }) table
]

-- `BACKOFF_SECONDS[step]`, of a step that is in range.
pub backoff_of : ℕ → ℕ
backoff_of attempts =
    elim (get_elem? backoff_seconds (min (attempts - 1) (length backoff_seconds - 1))) [
      | none ↦ 0
      | some seconds ↦ seconds
    ]

pub record_job_failure : ℕ → Job → List ℕ → List Job → List Job
record_job_failure now job error table =
    let last_error = some (take max_error_chars error) in
    elim job.interval_seconds [
      | some _ ↦
          update_job job.id
            (λ row. record row {
              run_at = now + min (backoff_of job.attempts) periodic_max_backoff_seconds;
              last_error = last_error;
            })
            table
      | none ↦
          if leb max_attempts job.attempts
          then update_job job.id (λ row. record row { status = failed; last_error = last_error })
              table
          else update_job job.id
              (λ row. record row {
                run_at = now + backoff_of job.attempts;
                last_error = last_error;
              })
              table
    ]

pub enqueue_job : ℕ → String → ℕ → List Job → List Job
enqueue_job fresh_id kind run_at table =
    record {
      id = fresh_id;
      kind = kind;
      interval_seconds = none;
      status = pending;
      run_at = run_at;
      attempts = 0;
      last_error = none;
    }
    ∷ table

pub record PeriodicJob : Type 0 where
  pub kind : String
  pub interval_seconds : ℕ

pub is_periodic : Job → Bool
is_periodic job = elim job.interval_seconds [ none ↦ false | some _ ↦ true ]

-- The insert with its conflict clause: a kind has one row that is periodic.
pub upsert_periodic : ℕ → ℕ → PeriodicJob → List Job → List Job
upsert_periodic now fresh_id periodic table =
    let is_its_row : Job → Bool = λ job. is_periodic job && string_eq.beq job.kind periodic.kind in
    if any is_its_row table
    then map
        (λ job.
          if is_its_row job
          then record job { interval_seconds = some periodic.interval_seconds }
          else job)
        table
    else (record {
      id = fresh_id;
      kind = periodic.kind;
      interval_seconds = some periodic.interval_seconds;
      status = pending;
      run_at = now;
      attempts = 0;
      last_error = none;
    }
        ∷ table)

-- Ids that no row has are an argument, one for each entry.
pub upsert_all : ℕ → List (ℕ × PeriodicJob) → List Job → List Job
upsert_all now [] table = table
upsert_all now ((fresh_id, periodic) ∷ rest) table =
    upsert_all now rest (upsert_periodic now fresh_id periodic table)

pub sync_periodic_jobs : ℕ → List (ℕ × PeriodicJob) → List String → List Job → List Job
sync_periodic_jobs now periodic registered table =
    let scheduled = map (λ entry. entry.1.kind) periodic in
    let retired = filter (λ kind. not (contains scheduled kind)) registered in
    filter (λ job. not (is_periodic job && contains retired job.kind))
      (upsert_all now periodic table)

pub failed_job_count : List Job → ℕ
failed_job_count table = length (filter (λ job. not (is_pending job)) table)
