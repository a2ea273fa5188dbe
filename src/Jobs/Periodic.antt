-- ===== src/Jobs/Periodic.antt =====
-- The rows that are schedules, after a sync.
use Prim.Native.String.{String}
use text.Mathlib.TextEquality.{eq_iff}
use critical_path_api.Prelude.{
  ℕ, ◌+◌, ◌≤◌, ◌≡◌, refl, Bool, true, false, not, ◌&&◌, List, [], ◌∷◌, none, some, map, arith, max,
  string_eq, if◌then◌else◌, length, filter, any, contains, contains-filter, Bool-cases, inl, inr,
}
use critical_path_api.Jobs.{
  Job, pending, PeriodicJob, is_periodic, upsert_periodic, upsert_all, sync_periodic_jobs,
}

-- How many schedules a kind has.
unfoldable pub schedules : String → List Job → ℕ
schedules kind table = length (filter (λ job. is_periodic job && string_eq.beq job.kind kind) table)

schedules-none :
    (kind : String) (table : List Job)
    → any (λ job. is_periodic job && string_eq.beq job.kind kind) table ≡ false
    → schedules kind table ≡ 0
unfolding schedules filter any
schedules-none kind [] h = refl
schedules-none kind (job ∷ table) h = ground (arith, schedules-none kind table)

schedules-any :
    (kind : String) (table : List Job)
    → any (λ job. is_periodic job && string_eq.beq job.kind kind) table ≡ true
    → 1 ≤ schedules kind table
unfolding schedules filter any
schedules-any kind [] h = ground arith
schedules-any kind (job ∷ table) h = ground (arith, schedules-any kind table)

schedules-change :
    (kind : String) (p : PeriodicJob) (table : List Job)
    → schedules kind (
        map
          (λ job.
            if is_periodic job && string_eq.beq job.kind p.kind
            then record job { interval_seconds = some p.interval_seconds }
            else job)
          table)
      ≡ schedules kind table
unfolding schedules filter is_periodic
schedules-change kind p [] = refl
schedules-change kind p (job ∷ table) = ground (arith, schedules-change kind p table)

schedules_cons :
    (kind : String) (job : Job) (table : List Job)
    → schedules kind (job ∷ table)
      ≡ (if is_periodic job && string_eq.beq job.kind kind then 1 else 0) + schedules kind table
unfolding schedules filter
schedules_cons kind job table = ground arith

schedules-upsert :
    (now fresh_id : ℕ) (kind : String) (p : PeriodicJob) (table : List Job)
    → schedules kind (upsert_periodic now fresh_id p table)
      ≡ (if string_eq.beq p.kind kind then max 1 (schedules kind table) else schedules kind table)
unfolding upsert_periodic is_periodic
schedules-upsert now fresh_id kind p table =
    elim (Bool-cases (any (λ job. is_periodic job && string_eq.beq job.kind p.kind) table)) [
      | inl b ↦
          rw (b, upsert_periodic)
            (ground (
              arith,
              schedules-change kind p table,
              schedules-any p.kind table b,
              eq_iff p.kind kind,
            ))
      | inr b ↦
          let added : Job = record {
            id = fresh_id;
            kind = p.kind;
            interval_seconds = some p.interval_seconds;
            status = pending;
            run_at = now;
            attempts = 0;
            last_error = none;
          } in
          rw (b, upsert_periodic)
            (ground (
              arith,
              schedules-none p.kind table b,
              eq_iff p.kind kind,
              schedules_cons kind added table,
            ))
    ]

schedules-upsert_all :
    (now : ℕ) (kind : String) (periodic : List (ℕ × PeriodicJob)) (table : List Job)
    → schedules kind (upsert_all now periodic table) ≡ (
        if contains (map (λ entry. entry.1.kind) periodic) kind
        then max 1 (schedules kind table)
        else schedules kind table)
unfolding upsert_all contains
schedules-upsert_all now kind [] table = refl
schedules-upsert_all now kind ((fresh_id, p) ∷ rest) table = ground (
  arith,
  schedules-upsert_all now kind rest (upsert_periodic now fresh_id p table),
  schedules-upsert now fresh_id kind p table,
)

schedules-retire :
    (kind : String) (retired : List String) (table : List Job)
    → schedules kind (filter (λ job. not (is_periodic job && contains retired job.kind)) table)
      ≡ (if contains retired kind then 0 else schedules kind table)
unfolding schedules filter
schedules-retire kind retired [] = ground arith
schedules-retire kind retired (job ∷ table) =
    ground (arith, schedules-retire kind retired table, eq_iff job.kind kind)

-- Where no kind has two schedules, a sync leaves each kind that is scheduled exactly one, each other
-- kind that this process handles none, and every other kind as many as it had.
pub sync_periodic_jobs-schedules :
    (now : ℕ) (kind : String) (periodic : List (ℕ × PeriodicJob)) (registered : List String)
    → (table : List Job) → schedules kind table ≤ 1
    → schedules kind (sync_periodic_jobs now periodic registered table) ≡ (
        if contains (map (λ entry. entry.1.kind) periodic) kind
        then 1
        else (if contains registered kind then 0 else schedules kind table))
unfolding sync_periodic_jobs
sync_periodic_jobs-schedules now kind periodic registered table le =
    let scheduled = map (λ entry. entry.1.kind) periodic in
    let keep : String → Bool = λ kind. not (contains scheduled kind) in
    ground (
      arith,
      schedules-retire kind (filter keep registered) (upsert_all now periodic table),
      contains-filter keep registered kind,
      schedules-upsert_all now kind periodic table,
    )
