-- ===== src/Jobs/Claims.antt =====
-- No other claim takes a row that is held.
use Prim.Native.String.{String}
use critical_path_api.Prelude.{
  ℕ, ◌+◌, ◌<◌, ◌≡◌, refl, inl, inr, true, false, List, [], ◌∷◌, map, arith, nat_eq, string_eq, ◌==◌,
  ==_iff, if◌then◌else◌, take, filter, contains, Bool-cases, ◌∙◌, zero, suc, ◌||◌,
}
use critical_path_api.Jobs.{
  Job, is_due, by_run_at, claim, claim_due_jobs, lease_seconds, insert_due,
}
use critical_path_api.Jobs.Lease.{Statement, execute_all, Waits, AllSpare, Waits-execute_all}

abbrev pub ids : List Job → List ℕ
ids = map (λ job. job.id)

claimed-listed :
    (id now : ℕ) (claimed : List ℕ) (table : List Job)
    → contains (ids (map (claim now) (filter (λ job. contains claimed job.id) table))) id ≡ true
    → contains claimed id ≡ true
unfolding contains filter claim
claimed-listed id now claimed [] h = ground arith
claimed-listed id now claimed (job ∷ table) h =
    ground (arith, claimed-listed id now claimed table, ==_iff job.id id)

-- The rows that a claim returns wait for their lease.
Waits-claimed :
    (id now : ℕ) (claimed : List ℕ) (table : List Job)
    → contains claimed id ≡ true
    → Waits id
        (now + lease_seconds)
        (map (λ job. if contains claimed job.id then claim now job else job) table)
unfolding claim
Waits-claimed id now claimed [] h = tt
Waits-claimed id now claimed (job ∷ table) h = ground (arith, Waits-claimed id now claimed table h)

due-listed :
    (id time now : ℕ) (kinds : List String) (locked : List ℕ) (table : List Job)
    → now < time
    → Waits id time table
    → contains (ids (filter (is_due now kinds locked) table)) id ≡ false
unfolding contains filter is_due
due-listed id time now kinds locked [] lt w = refl
due-listed id time now kinds locked (job ∷ table) lt w =
    ground (arith, due-listed id time now kinds locked table lt w.1, ==_iff job.id id)

insert_due-listed :
    (id : ℕ) (job : Job) (jobs : List Job)
    → contains (ids (insert_due job jobs)) id ≡ ((job.id == id) || contains (ids jobs) id)
unfolding insert_due contains
insert_due-listed id job [] = refl
insert_due-listed id job (other ∷ jobs) = ground (arith, insert_due-listed id job jobs)

by_run_at-listed :
    (id : ℕ) (jobs : List Job) → contains (ids (by_run_at jobs)) id ≡ contains (ids jobs) id
unfolding by_run_at contains
by_run_at-listed id [] = refl
by_run_at-listed id (job ∷ jobs) =
    ground (arith, by_run_at-listed id jobs, insert_due-listed id job (by_run_at jobs))

take-listed :
    (n id : ℕ) (jobs : List Job)
    → contains (ids jobs) id ≡ false
    → contains (ids (take n jobs)) id ≡ false
unfolding contains
take-listed zero id jobs h = refl
take-listed (suc n) id [] h = h
take-listed (suc n) id (job ∷ jobs) h = ground (arith, take-listed n id jobs)

not_claimed :
    (id time now limit : ℕ) (locked : List ℕ) (kinds : List String) (table : List Job)
    → now < time
    → Waits id time table
    → contains (ids (claim_due_jobs now locked kinds limit table).0) id ≡ false
unfolding claim_due_jobs contains
not_claimed id time now limit locked [] table lt w = refl
not_claimed id time now limit locked (kind ∷ kinds) table lt w =
    let due = filter (is_due now (kind ∷ kinds) locked) table in
    let claimed = ids (take limit (by_run_at due)) in
    let none_of : contains claimed id ≡ false =
      take-listed limit id (by_run_at due)
        (by_run_at-listed id due ∙ due-listed id time now (kind ∷ kinds) locked table lt w) in
    elim (Bool-cases
      (contains (ids (map (claim now) (filter (λ job. contains claimed job.id) table))) id)) [
        | inl h ↦ ground (arith, claimed-listed id now claimed table h, none_of)
        | inr h ↦ h
      ]

claim-Waits :
    (id now limit : ℕ) (locked : List ℕ) (kinds : List String) (table : List Job)
    → contains (ids (claim_due_jobs now locked kinds limit table).0) id ≡ true
    → Waits id (now + lease_seconds) (claim_due_jobs now locked kinds limit table).1
unfolding claim_due_jobs contains
claim-Waits id now limit locked [] table h = ground arith
claim-Waits id now limit locked (kind ∷ kinds) table h =
    Waits-claimed id now _ table (claimed-listed id now _ table h)

-- A row that a claim has returned is returned by no other claim for 60 seconds, whatever statements
-- run in between at no earlier time, as long as none of them ends an attempt at that row or makes
-- a new row with its id.
pub claim_due_jobs-exclusive :
    (id now later limit limit' : ℕ) (locked locked' : List ℕ) (kinds kinds' : List String)
    → (statements : List (ℕ × Statement)) (table : List Job)
    → contains (ids (claim_due_jobs now locked kinds limit table).0) id ≡ true
    → AllSpare id now statements
    → later < now + lease_seconds
    → let after = execute_all statements (claim_due_jobs now locked kinds limit table).1 in
      contains (ids (claim_due_jobs later locked' kinds' limit' after).0) id ≡ false
claim_due_jobs-exclusive id now later limit limit' locked locked' kinds kinds' statements table h a
      lt =
    not_claimed id (now + lease_seconds) later limit' locked' kinds' _ lt
      (Waits-execute_all id now statements _ a (claim-Waits id now limit locked kinds table h))
