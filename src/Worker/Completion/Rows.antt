-- ===== src/Worker/Completion/Rows.antt =====
-- The rows of the jobs while they are completed one after the other (app/worker/photo_jobs.py).
use crane_tracker.Base.{
  ℕ, ◌≡◌, refl, Bool, true, some, List, [], ◌∷◌, ◌&&◌, ◌||◌, map, arith, any, all, find, update,
  Bool-cases, inl, inr,
}
use crane_tracker.Models.{OutboxJob, JobStatus, Db, job_status_eq}
use crane_tracker.Exec.{Request, remove}
use crane_tracker.Worker.Jobs.{ClaimedJob, completed_row, has_id}

abbrev pub is_completed : Db → ℕ → Bool
is_completed d id = any (λ j. has_id id j && job_status_eq j.status JobStatus.completed) d.jobs

-- a job with nothing left to do
abbrev pub is_done : OutboxJob → Bool
is_done j = job_status_eq j.status JobStatus.completed

-- or one that is among these
abbrev pub is_done_but : List ClaimedJob → OutboxJob → Bool
is_done_but jobs j = is_done j || any (λ c. has_id c.id j) jobs

-- what the bucket is asked for them
abbrev pub removals : List ClaimedJob → List Request
removals = map (λ c. remove c.storage_key)

abbrev pub has_job : Db → ℕ → Bool
has_job d id = any (has_id id) d.jobs

module _ (time : ℕ) where
  pub completes :
      (id : ℕ) (rows : List OutboxJob)
      → any (has_id id) rows ≡ true
      → any
          (λ j. has_id id j && job_status_eq j.status JobStatus.completed)
          (update (has_id id) (completed_row time) rows)
        ≡ true
  completes id [] h = h
  completes id (j ∷ rows) h = ground (arith, completes id rows)

  pub stays_completed :
      (id k : ℕ) (rows : List OutboxJob)
      → any (λ j. has_id id j && job_status_eq j.status JobStatus.completed) rows ≡ true
      → any
          (λ j. has_id id j && job_status_eq j.status JobStatus.completed)
          (update (has_id k) (completed_row time) rows)
        ≡ true
  stays_completed id k [] h = h
  stays_completed id k (j ∷ rows) h = ground (arith, stays_completed id k rows)

pub find-any :
    (id : ℕ) (rows : List OutboxJob)
    → any (has_id id) rows ≡ true
    → (j : OutboxJob) × (find (has_id id) rows ≡ some j)
find-any id [] h = cc
find-any id (j ∷ rows) h = elim (Bool-cases (has_id id j)) [
  | inl here ↦ (j, rw here refl)
  | inr past ↦ let (k, found) = find-any id rows (ground arith) in (k, rw past found)
]

pub any-update :
    (id : ℕ) (test : OutboxJob → Bool) (f : OutboxJob → OutboxJob) (rows : List OutboxJob)
    → ((j : OutboxJob) → (f j).id ≡ j.id)
    → any (has_id id) (update test f rows) ≡ any (has_id id) rows
any-update id test f [] keeps = refl
any-update id test f (j ∷ rows) keeps = ground (arith, keeps j, any-update id test f rows keeps)

pub one_more_done :
    (time : ℕ) (c : ClaimedJob) (jobs : List ClaimedJob) (rows : List OutboxJob)
    → all (is_done_but (c ∷ jobs)) rows ≡ true
    → all (is_done_but jobs) (update (has_id c.id) (completed_row time) rows) ≡ true
one_more_done time c jobs [] h = refl
one_more_done time c jobs (j ∷ rows) h = ground (arith, one_more_done time c jobs rows)

pub all_done : (rows : List OutboxJob) → all (is_done_but []) rows ≡ true → all is_done rows ≡ true
all_done [] h = refl
all_done (j ∷ rows) h = ground (arith, all_done rows)
