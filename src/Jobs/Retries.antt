-- ===== src/Jobs/Retries.antt =====
-- How the attempts at one row end.
use Prim.Native.String.{String}
use critical_path_api.Prelude.{
  ℕ, ◌+◌, ◌≤◌, ◌≡◌, refl, sym, subst, ◌∙◌, inl, inr, false, List, [], ◌∷◌, Option, none, some,
  arith, nat_eq, ◌==◌, ==_iff, leb, if◌then◌else◌, length, take, find, Bool-cases,
}
use critical_path_api.Jobs.{
  pending, failed, Job, claim, update_job, record_job_failure, backoff_of, max_attempts,
  max_error_chars, is_due, is_pending,
}

unfoldable pub row : ℕ → List Job → Option Job
row id = find (λ job. job.id == id)

row-update_job :
    (id : ℕ) (change : Job → Job) (table : List Job) (job : Job)
    → ((job : Job) → (change job).id ≡ job.id)
    → row id table ≡ some job
    → row id (update_job id change table) ≡ some (change job)
unfolding row find update_job
row-update_job id change [] job same h = ground arith
row-update_job id change (other ∷ table) job same h =
    ground (arith, same other, row-update_job id change table job same, ==_iff other.id id)

-- The row is claimed at one time, and the attempt fails at another.
pub record Failure : Type 0 where
  pub claimed_at : ℕ
  pub failed_at : ℕ
  pub error : List ℕ

pub fail_round : ℕ → Failure → List Job → List Job
fail_round id f table = elim (row id table) [
  | none ↦ table
  | some job ↦
      record_job_failure f.failed_at (claim f.claimed_at job) f.error
        (update_job id (claim f.claimed_at) table)
]

pub fail_rounds : ℕ → List Failure → List Job → List Job
fail_rounds id [] table = table
fail_rounds id (f ∷ fs) table = fail_rounds id fs (fail_round id f table)

-- Where the attempts at a row that runs once have got to.
pub record Stands (attempts : ℕ) (job : Job) : Type 0 where
  pub once : job.interval_seconds ≡ none
  pub counted : job.attempts ≡ attempts
  pub status : job.status ≡ (if leb max_attempts attempts then failed else pending)

-- What a failure writes to the row that it is about.
final : List ℕ → Job → Job
final error row = record row { status = failed; last_error = some (take max_error_chars error) }

retried : ℕ → List ℕ → ℕ → Job → Job
retried now error attempts row = record row {
  run_at = now + backoff_of attempts;
  last_error = some (take max_error_chars error);
}

failure-once :
    (now : ℕ) (job : Job) (error : List ℕ) (table : List Job)
    → job.interval_seconds ≡ none
    → record_job_failure now job error table
      ≡ update_job job.id
          (λ row.
            if leb max_attempts job.attempts
            then final error row
            else retried now error job.attempts row)
          table
unfolding record_job_failure final retried
failure-once now job error table once = elim (Bool-cases (leb max_attempts job.attempts)) [
  | inl b ↦ rw (once, record_job_failure, b) refl
  | inr b ↦ rw (once, record_job_failure, b) refl
]

round-Stands :
    (attempts : ℕ) (f : Failure) (table : List Job) (job : Job)
    → row job.id table ≡ some job
    → Stands attempts job
    → leb max_attempts attempts ≡ false
    → (job' : Job) × (row job.id (fail_round job.id f table) ≡ some job')
      × (job'.id ≡ job.id)
      × Stands (attempts + 1) job'
unfolding fail_round claim final retried
round-Stands attempts f table job h s left =
    let claimed = claim f.claimed_at job in
    let change : Job → Job = λ row.
      if leb max_attempts claimed.attempts
      then final f.error row
      else retried f.failed_at f.error claimed.attempts row in
    (
      change claimed,
      rw
          (
            h,
            fail_round,
            failure-once f.failed_at claimed f.error (update_job job.id (claim f.claimed_at) table)
                s.once,
          )
          (row-update_job job.id change _ claimed (λ j. ground arith)
            (row-update_job job.id (claim f.claimed_at) table job (λ j. refl) h)),
      ground arith,
      record { once = ground arith; counted = ground arith; status = ground arith },
    )

rounds-Stands :
    (id attempts : ℕ) (fs : List Failure) (table : List Job) (job : Job)
    → row id table ≡ some job
    → job.id ≡ id
    → Stands attempts job
    → attempts + length fs ≤ max_attempts
    → (job' : Job) × (row id (fail_rounds id fs table) ≡ some job')
      × Stands (attempts + length fs) job'
unfolding fail_rounds
rounds-Stands id attempts [] table job h named s le =
    (job, h, subst (λ n. Stands n job) (omega arith) s)
rounds-Stands id attempts (f ∷ fs) table job h named s le =
    let (job', h', named', s') =
      round-Stands attempts f table job (subst (λ i. row i table ≡ some job) (sym named) h) s
        (ground (arith, le)) in
    let (last, h'', s'') =
      rounds-Stands id (attempts + 1) fs (fail_round id f table) job'
        (subst (λ i. row i (fail_round i f table) ≡ some job') named h') (named' ∙ named) s'
        (omega (arith, le)) in
    (last, h'', subst (λ n. Stands n last) (omega arith) s'')

-- A row that runs once, and that waits for its first attempt, is still pending after fewer than six
-- attempts that fail, and is failed after the sixth; it counts its attempts. No claim takes a row
-- that is failed.
pub fail_rounds-ends :
    (id now : ℕ) (fs : List Failure) (table : List Job) (job : Job)
    → (kinds : List String) (locked : List ℕ) → row id table ≡ some job
    → job.id ≡ id
    → job.interval_seconds ≡ none
    → job.attempts ≡ 0
    → job.status ≡ pending
    → length fs ≤ max_attempts
    → (job' : Job) × (row id (fail_rounds id fs table) ≡ some job')
      × (job'.attempts ≡ length fs)
      × (job'.status ≡ (if leb max_attempts (length fs) then failed else pending))
      × (length fs ≡ max_attempts → is_due now kinds locked job' ≡ false)
unfolding is_due is_pending
fail_rounds-ends id now fs table job kinds locked h named once fresh waits le =
    let (job', h', s) =
      rounds-Stands id 0 fs table job h named
        (record { once = once; counted = fresh; status = waits }) (omega (arith, le)) in
    (
      job',
      h',
      omega (arith, s.counted),
      ground (arith, s.status),
      λ all. ground (arith, s.status, all),
    )
