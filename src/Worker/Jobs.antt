-- ===== src/Worker/Jobs.antt =====
-- The outbox in app/worker/photo_jobs.py: a job is claimed under a lease, and its outcome is
-- recorded.
use crane_tracker.Base.{
  ℕ, suc, ◌≡◌, arith, ◌+◌, ◌*◌, ◌^◌, min, String, Bool, true, false, Option, none, some, List, ◌&&◌,
  ◌||◌, ◌==◌, ltb, not, map, text_eq, if◌then◌else◌, select, find, any, update, take, order_by,
  ascending,
}
use crane_tracker.Models.{OutboxJob, JobOperation, JobStatus, Db, operation_eq, job_status_eq}
use crane_tracker.Errors.{Result, ok, err, Error, data_error, sql_alchemy, resource_not_found}
use crane_tracker.Settings.{Settings}
use crane_tracker.Env.{Env}
use crane_tracker.Database.{delete_photos, fits_error}
use crane_tracker.Exec.{
  Action, pure, raise, gets, query, or_raise, rescue, modify, execute, commit, rollback, draw, now,
  ◌>>=◌, ◌>>◌,
}

pub record ClaimedJob : Type 0 where
  pub id : ℕ
  pub operation : JobOperation
  pub storage_key : String

-- `lease_expires_at < now()`, which no NULL satisfies
abbrev pub lease_is_over : ℕ → Option ℕ → Bool
lease_is_over time none = false
lease_is_over time (some t) = ltb t time

-- the WHERE of `claim_jobs`
abbrev pub is_claimable : JobOperation → ℕ → OutboxJob → Bool
is_claimable operation time j =
    operation_eq j.operation operation
    && (job_status_eq j.status JobStatus.pending && ltb j.available_at time
        || job_status_eq j.status JobStatus.processing && lease_is_over time j.lease_expires_at)

-- the rows that the query locks: those that other transactions hold are skipped
unfoldable pub claimable_jobs : JobOperation → ℕ → ℕ → (ℕ → Bool) → Db → List OutboxJob
claimable_jobs operation batch_size time locked d = take batch_size (
    order_by (ascending (λ j. j.created_at))
      (select (λ j. is_claimable operation time j && not (locked j.id)) d.jobs))

abbrev pub is_among : List OutboxJob → OutboxJob → Bool
is_among jobs j = any (λ k. k.id == j.id) jobs

abbrev pub claimed : ℕ → OutboxJob → OutboxJob
claimed lease_end j = record j {
  status = JobStatus.processing;
  attempts = suc j.attempts;
  lease_expires_at = some lease_end;
}

abbrev pub claim_of : OutboxJob → ClaimedJob
claim_of j = record { id = j.id; operation = j.operation; storage_key = j.storage_key }

abbrev pub seconds : ℕ → ℕ
seconds n = n * 1_000_000

abbrev pub milliseconds : ℕ → ℕ
milliseconds n = n * 1_000

unfoldable pub claim_jobs : Env → JobOperation → ℕ → Action (List ClaimedJob)
unfolding claimable_jobs
claim_jobs env operation batch_size = do
  time ← gets now
  locked ← gets (λ w. w.locked)
  jobs ← query (claimable_jobs operation batch_size time locked)
  modify λ d. record d {
    jobs = update (is_among jobs) (claimed (time + seconds env.settings.lock_lease_window)) d.jobs;
  }
  commit
  pure (map claim_of jobs)

-- the most that `calculate_backoff` may return, in milliseconds
unfoldable pub backoff : Settings → ℕ → ℕ
backoff settings attempts =
    min settings.max_backoff_delay (settings.min_backoff_delay * 2 ^ attempts)

unfoldable pub calculate_backoff : Env → ℕ → Action ℕ
unfolding backoff
calculate_backoff env attempts = draw λ n. env.uniform n (backoff env.settings attempts)

abbrev pub after_failure : Settings → OutboxJob → JobStatus
after_failure settings j =
    if ltb j.attempts settings.max_worker_attempts then JobStatus.pending else JobStatus.failed

abbrev pub failed_row : Settings → ℕ → String → OutboxJob → OutboxJob
failed_row settings available_at err_str j = record j {
  status = after_failure settings j;
  available_at = available_at;
  lease_expires_at = none;
  last_error = some err_str;
}

abbrev pub completed_row : ℕ → OutboxJob → OutboxJob
completed_row time j = record j {
  status = JobStatus.completed;
  lease_expires_at = none;
  completed_at = some time;
}

abbrev pub has_id : ℕ → OutboxJob → Bool
has_id job_id j = j.id == job_id

abbrev pub update_job : ℕ → (OutboxJob → OutboxJob) → Db → Db
update_job job_id f d = record d { jobs = update (has_id job_id) f d.jobs }

-- the UPDATE of a failed job, whose text may be too long for its column
unfoldable pub failure_row : Env → ℕ → ℕ → String → Db → Result Db
failure_row env job_id available_at err_str d =
    if fits_error (some err_str)
    then ok (update_job job_id (failed_row env.settings available_at err_str) d)
    else err (sql_alchemy data_error)

pub failure_row_lem :
    (env : Env) (id available_at : ℕ) (text : String) (d d' : Db)
    → failure_row env id available_at text d ≡ ok d'
    → d' ≡ update_job id (failed_row env.settings available_at text) d
unfolding failure_row
failure_row_lem env id available_at text d d' e = ground arith

pub photos-failure_row :
    (env : Env) (id available_at : ℕ) (text : String) (d d' : Db)
    → failure_row env id available_at text d ≡ ok d'
    → d'.photos ≡ d.photos
unfolding failure_row
photos-failure_row env id available_at text d d' e = ground arith

unfoldable pub capture_failure : Env → ℕ → String → Action (Unit {0})
unfolding calculate_backoff failure_row
capture_failure env job_id err_str = do
  found ← query (λ d. find (has_id job_id) d.jobs)
  job ← or_raise found (resource_not_found "outbox_job" job_id)
  delay ← calculate_backoff env job.attempts
  time ← gets now
  execute (failure_row env job_id (time + delay) err_str)
  commit

unfoldable pub capture_success : ℕ → Action (Unit {0})
capture_success job_id = do
  found ← query (λ d. find (has_id job_id) d.jobs)
  job ← or_raise found (resource_not_found "outbox_job" job_id)
  time ← gets now
  execute (λ d. ok (update_job job_id (completed_row time) d))
  execute (λ d. ok (delete_photos (λ p. text_eq p.storage_key job.storage_key) d))
  commit

unfoldable pub capture : Env → ℕ → Option String → Action (Unit {0})
unfolding capture_success capture_failure
capture env job_id none = capture_success job_id
capture env job_id (some err_str) = capture_failure env job_id err_str

-- the two handlers of `_record_job_outcome`; any other exception goes on
unfoldable pub give_up_on : Error → Action Bool
give_up_on (resource_not_found _ _) = rollback >> pure false
give_up_on (sql_alchemy _) = rollback >> pure false
give_up_on e = raise e

-- `_record_job_outcome`
unfoldable pub record_job_outcome : Env → ℕ → Option String → Action Bool
unfolding capture_success capture_failure capture give_up_on
record_job_outcome env job_id err_str = rescue (capture env job_id err_str >> pure true) give_up_on
