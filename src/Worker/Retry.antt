-- ===== src/Worker/Retry.antt =====
-- The outcome of a job in app/worker/photo_jobs.py: the backoff, the retries, and the end.
use crane_tracker.Base.{
  ℕ, ◌+◌, ◌≤◌, ◌≡◌, refl, String, Bool, true, false, Option, none, some, List, [], ◌∷◌, ◌&&◌, arith,
  not, find, update, any, select, text_eq, delete, ltb, ◌⊎◌,
}
use crane_tracker.Models.{OutboxJob, JobOperation, Db, CranePhoto}
use crane_tracker.Errors.{Result, ok, err}
use crane_tracker.Settings.{Settings}
use crane_tracker.Env.{Env}
use crane_tracker.Database.{delete_photos, fits_error}
use crane_tracker.Exec.{World, now, ◌>>=◌, query, commit, execute, draw, rescue, rollback}
use crane_tracker.Worker.Jobs.{
  backoff, record_job_outcome, calculate_backoff, capture_failure, capture_success, failure_row,
  failed_row, has_id, completed_row, update_job, is_claimable, milliseconds,
}

-- The job that an id finds, after a change of the row with this id that keeps the id.
find-update_job :
    (id : ℕ) (f : OutboxJob → OutboxJob) (rows : List OutboxJob) (job : OutboxJob)
    → ((j : OutboxJob) → (f j).id ≡ j.id)
    → find (has_id id) rows ≡ some job
    → find (has_id id) (update (has_id id) f rows) ≡ some (f job)
find-update_job id f [] job keeps h = cc
find-update_job id f (j ∷ rows) job keeps h =
    ground (arith, keeps j, find-update_job id f rows job keeps)

-- What is said of the draws of `random.uniform(0, b)`, in milliseconds.
abbrev pub IsUniform : Env → Type 0
IsUniform env = (draw b : ℕ) → env.uniform draw b ≤ milliseconds b

backoff-le : (settings : Settings) (n : ℕ) → backoff settings n ≤ settings.max_backoff_delay
unfolding backoff
backoff-le settings n = omega arith

-- the row of a job whose failure is recorded
abbrev pub failure_of : Env → World → String → OutboxJob → OutboxJob
failure_of env w text job =
    failed_row env.settings (now w + env.uniform w.drawn (backoff env.settings job.attempts)) text
      job

capture_failure_ok :
    (env : Env) (id : ℕ) (text : String) (w : World) (job : OutboxJob)
    → w.faults ≡ []
    → find (has_id id) w.working.jobs ≡ some job
    → fits_error (some text) ≡ true
    → ((capture_failure env id text w).0 ≡ ok tt)
      × ((capture_failure env id text w).1.committed.jobs
          ≡ update
              (has_id id)
              (failed_row env.settings
                (now w + env.uniform w.drawn (backoff env.settings job.attempts))
                text)
              w.working.jobs)
unfolding capture_failure calculate_backoff failure_row ◌>>=◌ query execute commit draw
capture_failure_ok env id text w job calm found fits = ground arith

-- What a recorded failure says of the row `k` that was `job`: the text is kept, the attempts stay,
-- and it can be claimed again, no later than the maximal backoff from now, exactly while its attempts
-- are below the limit.
pub record IsRetried (env : Env) (w : World) (text : String) (job k : OutboxJob) : Type 0 where
  pub error : k.last_error ≡ some text
  pub attempts : k.attempts ≡ job.attempts
  pub free : k.lease_expires_at ≡ none
  pub soon : k.available_at ≤ now w + milliseconds env.settings.max_backoff_delay
  pub again :
      (time : ℕ)
      → is_claimable JobOperation.delete time k
        ≡ (ltb job.attempts env.settings.max_worker_attempts && ltb k.available_at time)

retried :
    (env : Env) (w : World) (text : String) (job : OutboxJob)
    → IsUniform env
    → job.operation ≡ JobOperation.delete
    → IsRetried env w text job (failure_of env w text job)
retried env w text job uniform op = record {
  error = refl;
  attempts = refl;
  free = refl;
  soon = omega (
    arith,
    uniform w.drawn (backoff env.settings job.attempts),
    backoff-le env.settings job.attempts,
  );
  again = λ time. ground arith;
}

-- Where the database answers, the job exists and removes an object, the text fits its column, and
-- the draws of `random.uniform` are within their bounds, a failure is recorded, whatever the state of
-- the job: it can be claimed again, after at most the maximal backoff, while its attempts are below the
-- limit, and otherwise no claim at any time takes it again.
pub capture_failure_retries :
    (env : Env) (id : ℕ) (text : String) (w : World) (job : OutboxJob)
    → IsUniform env
    → w.faults ≡ []
    → find (has_id id) w.working.jobs ≡ some job
    → job.operation ≡ JobOperation.delete
    → fits_error (some text) ≡ true
    → (k : OutboxJob) × ((capture_failure env id text w).0 ≡ ok tt)
      × (find (has_id id) (capture_failure env id text w).1.committed.jobs ≡ some k)
      × IsRetried env w text job k
capture_failure_retries env id text w job uniform calm found op fits =
    let (done, rows) = capture_failure_ok env id text w job calm found fits in
    (
      failure_of env w text job,
      done,
      rw rows (find-update_job id _ w.working.jobs job (λ j. refl) found),
      retried env w text job uniform op,
    )

-- whether an outcome was recorded
abbrev pub recorded : Result Bool → Bool
recorded (ok b) = b
recorded (err _) = false

-- Recording an outcome never raises, whichever statements fail: it reports that the outcome was
-- recorded, or it commits nothing.
pub record_job_outcome_total :
    (env : Env) (id : ℕ) (text : Option String) (w : World)
    → let (r, w') = record_job_outcome env id text w in
      (r ≡ ok (recorded r)) × ((recorded r ≡ true) ⊎ (w'.committed ≡ w.committed))
unfolding record_job_outcome capture_success ◌>>=◌ query execute commit draw rescue rollback
record_job_outcome_total env id none w = ground arith
record_job_outcome_total env id (some text) w = ground arith

-- Where the database answers and the job exists, a text that does not fit its column is not
-- recorded: the call reports so and commits nothing, and the job stays as it was claimed.
pub record_job_outcome_too_long :
    (env : Env) (id : ℕ) (text : String) (w : World) (job : OutboxJob)
    → w.faults ≡ []
    → find (has_id id) w.working.jobs ≡ some job
    → fits_error (some text) ≡ false
    → ((record_job_outcome env id (some text) w).0 ≡ ok false)
      × ((record_job_outcome env id (some text) w).1.committed ≡ w.committed)
unfolding record_job_outcome capture_failure calculate_backoff failure_row ◌>>=◌ query execute
    commit draw rescue rollback
record_job_outcome_too_long env id text w job calm found long = ground arith

any-delete :
    (key : String) (ps : List CranePhoto)
    → any (λ p. text_eq p.storage_key key) (delete (λ p. text_eq p.storage_key key) ps) ≡ false
any-delete key [] = refl
any-delete key (p ∷ ps) = ground (arith, any-delete key ps)

others-delete :
    (key : String) (ps : List CranePhoto)
    → select (λ p. not (text_eq p.storage_key key)) (delete (λ p. text_eq p.storage_key key) ps)
      ≡ select (λ p. not (text_eq p.storage_key key)) ps
others-delete key [] = refl
others-delete key (p ∷ ps) = ground (arith, others-delete key ps)

-- What a recorded success leaves: the job completed and without a lease, the photos of its object
-- gone, and every other photo and job as it was.
pub record IsFinished (w : World) (id : ℕ) (job : OutboxJob) (d : Db) : Type 0 where
  pub job_completed : find (has_id id) d.jobs ≡ some (completed_row (now w) job)
  pub photos_gone : any (λ p. text_eq p.storage_key job.storage_key) d.photos ≡ false
  pub others_kept :
      select (λ p. not (text_eq p.storage_key job.storage_key)) d.photos
      ≡ select (λ p. not (text_eq p.storage_key job.storage_key)) w.working.photos
  pub other_jobs_kept :
      select (λ j. not (has_id id j)) d.jobs ≡ select (λ j. not (has_id id j)) w.working.jobs

select-update_others :
    (id time : ℕ) (rows : List OutboxJob)
    → select (λ j. not (has_id id j)) (update (has_id id) (completed_row time) rows)
      ≡ select (λ j. not (has_id id j)) rows
select-update_others id time [] = refl
select-update_others id time (j ∷ rows) = ground (arith, select-update_others id time rows)

capture_success_ok :
    (id : ℕ) (w : World) (job : OutboxJob)
    → w.faults ≡ []
    → find (has_id id) w.working.jobs ≡ some job
    → ((capture_success id w).0 ≡ ok tt)
      × ((capture_success id w).1.committed
          ≡ delete_photos
              (λ p. text_eq p.storage_key job.storage_key)
              (update_job id (completed_row (now w)) w.working))
unfolding capture_success ◌>>=◌ query execute commit
capture_success_ok id w job calm found = ground arith

finished :
    (id : ℕ) (w : World) (job : OutboxJob)
    → find (has_id id) w.working.jobs ≡ some job
    → IsFinished w id job (
        delete_photos
          (λ p. text_eq p.storage_key job.storage_key)
          (update_job id (completed_row (now w)) w.working))
unfolding delete_photos
finished id w job found = record {
  job_completed = find-update_job id _ w.working.jobs job (λ j. refl) found;
  photos_gone = any-delete job.storage_key w.working.photos;
  others_kept = others-delete job.storage_key w.working.photos;
  other_jobs_kept = select-update_others id (now w) w.working.jobs;
}

-- Where the database answers, the success of a job that exists is recorded: the job is completed and
-- without a lease, the photos of its object are gone, and every other photo and job is as it was.
pub capture_success_finishes :
    (id : ℕ) (w : World) (job : OutboxJob)
    → w.faults ≡ []
    → find (has_id id) w.working.jobs ≡ some job
    → ((capture_success id w).0 ≡ ok tt) × IsFinished w id job (capture_success id w).1.committed
capture_success_finishes id w job calm found =
    let (done, tables) = capture_success_ok id w job calm found in
    (done, rw tables (finished id w job found))
