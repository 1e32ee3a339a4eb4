-- ===== src/Worker/Batch.antt =====
-- The two jobs of a cycle in app/worker/photo_jobs.py, and the loop of app/worker/main.py.
use crane_tracker.Base.{
  ℕ, suc, ◌+◌, String, Bool, Option, none, some, List, [], ◌∷◌, ◌&&◌, ltb, not, if◌then◌else◌,
  select, length, take, order_by, ascending,
}
use crane_tracker.Models.{CranePhoto, CranePhotoStatus, JobOperation, Db, photo_status_eq}
use crane_tracker.Errors.{Result, ok, err, Error, sql_alchemy, message}
use crane_tracker.Env.{Env}
use crane_tracker.Exec.{
  Action, pure, raise, gets, query, rescue, attempt, commit, rollback, now, ◌>>=◌, ◌>>◌,
}
use crane_tracker.Photo.Upload.{create_delete_crane_job}
use crane_tracker.Storage
use crane_tracker.Worker.Jobs.{ClaimedJob, claim_jobs, record_job_outcome, milliseconds}

-- `except SQLAlchemyError: session.rollback(); return 0`
unfoldable pub zero_on_sql_error : Error → Action ℕ
zero_on_sql_error (sql_alchemy _) = rollback >> pure 0
zero_on_sql_error e = raise e

abbrev pub is_expired_upload : ℕ → ℕ → CranePhoto → Bool
is_expired_upload window time p =
    photo_status_eq p.status CranePhotoStatus.pending_upload && ltb (p.added_at + window) time

unfoldable pub expired_uploads : ℕ → ℕ → ℕ → (ℕ → Bool) → Db → List CranePhoto
expired_uploads batch_size window time locked d = take batch_size (
    order_by (ascending (λ p. p.added_at))
      (select (λ p. is_expired_upload window time p && not (locked p.id)) d.photos))

module _ (env : Env) where
  -- the text that a failed removal leaves on its job
  abbrev error_text : Result (Unit {0}) → Option String
  error_text (ok _) = none
  error_text (err e) = some (message env.uuid_str e)

  unfoldable pub process_job : ClaimedJob → Action Bool
  process_job job = do
    removed ← attempt (Storage.delete_photo env job.storage_key)
    record_job_outcome env job.id (error_text removed)

  -- `shutdown n` is what `shutdown.is_set()` says when `n` jobs are processed
  unfoldable pub process_jobs : (ℕ → Bool) → List ClaimedJob → ℕ → Action ℕ
  unfolding process_job
  process_jobs shutdown [] processed_jobs = pure processed_jobs
  process_jobs shutdown (job ∷ jobs) processed_jobs =
      let rest = process_jobs shutdown jobs (suc processed_jobs) in
      if shutdown processed_jobs then pure processed_jobs else process_job job >> rest

  -- the `except` covers the claim alone
  unfoldable pub claim_batch : Action (Option (List ClaimedJob))
  unfolding zero_on_sql_error
  claim_batch =
      rescue
        (do jobs ← claim_jobs env JobOperation.delete env.settings.job_batch_size; pure (some jobs))
        (λ e. zero_on_sql_error e >> pure none)

  unfoldable pub process_batch : (ℕ → Bool) → Option (List ClaimedJob) → Action ℕ
  unfolding process_jobs
  process_batch shutdown none = pure 0
  process_batch shutdown (some jobs) = process_jobs shutdown jobs 0

  unfoldable pub run_delete_batch : (ℕ → Bool) → Action ℕ
  unfolding claim_batch process_jobs process_batch
  run_delete_batch shutdown = do batch ← claim_batch; process_batch shutdown batch

  unfoldable pub queue_all : List CranePhoto → Action (Unit {0})
  queue_all [] = pure tt
  queue_all (photo ∷ photos) =
      let rest = queue_all photos in create_delete_crane_job env photo >> rest

  unfoldable pub reap : Action ℕ
  unfolding expired_uploads queue_all
  reap = do
    time ← gets now
    locked ← gets (λ w. w.locked)
    photos ← query (
        expired_uploads env.settings.job_batch_size (milliseconds env.settings.photo_reaper_delay)
          time locked)
    queue_all photos
    commit
    pure (length photos)

  unfoldable pub run_reap_crane_photos : Action ℕ
  unfolding expired_uploads queue_all reap zero_on_sql_error
  run_reap_crane_photos = rescue reap zero_on_sql_error

  -- `with session_scope("worker")` under `except Exception`: what was added to `processed` before
  -- an exception stays
  unfoldable pub then_reap : Result ℕ → Action ℕ
  unfolding run_reap_crane_photos
  then_reap (err e) = pure 0
  then_reap (ok deleted) = do
    reaped ← attempt run_reap_crane_photos
    pure (elim reaped [ ok n ↦ deleted + n | err e ↦ deleted ])

  unfoldable pub worker_cycle : (ℕ → Bool) → Action ℕ
  unfolding run_delete_batch run_reap_crane_photos then_reap
  worker_cycle shutdown = do
    deleted ← attempt (run_delete_batch shutdown)
    processed ← then_reap deleted
    rollback
    pure processed

  -- one entry for each round of `while not shutdown.is_set()`
  unfoldable pub worker_loop : List (ℕ → Bool) → Action (Unit {0})
  unfolding worker_cycle
  worker_loop [] = pure tt
  worker_loop (shutdown ∷ rounds) = let rest = worker_loop rounds in worker_cycle shutdown >> rest
