-- ===== src/Tests/Jobs.antt =====
-- The theorems on the worker's jobs.
use Prim.Native.String.{◌++◌}
use crane_tracker.Base.{
  ◌+◌, ℕ, ◌≤◌, length, String, ◌≡◌, refl, arith, true, false, not, any, all, map, ◌||◌, find, some,
  [], ◌∷◌,
}
use crane_tracker.Models.{CranePhoto, CranePhotoStatus, OutboxJob, JobOperation}
use crane_tracker.Errors.{ok}
use crane_tracker.Exec.{World, Reply, gets, execute, draw, ◌>>=◌, query, modify, commit}
use crane_tracker.Database.{fits_error, insert_job}
use crane_tracker.Worker.Jobs.{
  ClaimedJob, claim_of, claim_jobs, claimable_jobs, has_id, capture_failure, capture_success,
  record_job_outcome,
}
use crane_tracker.Worker.Lease.{holds, claim_jobs_disjoint}
use crane_tracker.Worker.Retry.{
  IsUniform, IsRetried, IsFinished, capture_failure_retries, capture_success_finishes,
  record_job_outcome_too_long,
}
use crane_tracker.Worker.Batch.{
  run_delete_batch, reap, queue_all, expired_uploads, worker_cycle, worker_loop,
  run_reap_crane_photos,
}
use crane_tracker.Storage.{get_r2_config}
use crane_tracker.Worker.Completion.{
  Answers, batch, is_completed, removals, run_delete_batch_completes,
}
use crane_tracker.System.Outbox.Rows.{IsQueued}
use crane_tracker.System.Drain.{Drains, awaits_deletion, is_removal, run_delete_batch_drains}
use crane_tracker.Worker.Cycle.{Adds, worker_cycle_total}
use crane_tracker.Worker.Reaper.{overdue, is_marked, reap_ok}
use crane_tracker.Photo.Upload.{create_delete_crane_job, create_task}
use crane_tracker.Tests.Values.{photo, env, tables, job, world, world_at}

abbrev next_job : OutboxJob
next_job = record job { id = 8; created_at = 21 }

abbrev start : World
start = world_at 50 (record tables { jobs = job ∷ next_job ∷ [] })

abbrev claims : World → World
claims w = (claim_jobs env JobOperation.delete 1 w).1

-- the first claim takes one job, and a claim under its lease the other
abbrev later_world : World
later_world = world_at 1000 (claims start).committed

claims_first : claim_jobs env JobOperation.delete 1 start ≡ (ok (claim_of job ∷ []), claims start)
unfolding claim_jobs claimable_jobs ◌>>=◌ query modify commit
claims_first = refl

claims_next :
    claim_jobs env JobOperation.delete 1 later_world
    ≡ (ok (claim_of next_job ∷ []), claims later_world)
unfolding claim_jobs claimable_jobs ◌>>=◌ query modify commit
claims_next = refl

claim_jobs_disjoint_example :
    all {A = ClaimedJob} (λ c. not (holds (claim_of job ∷ []) c.id)) (claim_of next_job ∷ []) ≡ true
claim_jobs_disjoint_example =
    claim_jobs_disjoint env JobOperation.delete 1 1 start (claims start) later_world
      (claims later_world) (claim_of job ∷ []) (claim_of next_job ∷ []) claims_first refl
      (omega arith) claims_next

uniform : IsUniform env
uniform draw b = omega arith

short : fits_error (some "timeout") ≡ true
unfolding fits_error
short = refl

capture_failure_retries_example :
    (k : OutboxJob) × ((capture_failure env 7 "timeout" world).0 ≡ ok tt)
    × (find (has_id 7) (capture_failure env 7 "timeout" world).1.committed.jobs ≡ some k)
    × IsRetried env world "timeout" job k
capture_failure_retries_example =
    capture_failure_retries env 7 "timeout" world job uniform refl refl refl short

capture_success_finishes_example :
    ((capture_success 7 world).0 ≡ ok tt)
    × IsFinished world 7 job (capture_success 7 world).1.committed
capture_success_finishes_example = capture_success_finishes 7 world job refl refl

abbrev line : String
line = "0123456789abcdef0123456789abcdef0123456789abcdef0123456789abcdef"

abbrev four_times : String → String
four_times s = s ++ (s ++ (s ++ s))

-- 1088 characters
abbrev long : String
long = four_times (four_times line) ++ line

too_long : fits_error (some long) ≡ false
unfolding fits_error
too_long = refl

record_job_outcome_too_long_example :
    ((record_job_outcome env 7 (some long) world).0 ≡ ok false)
    × ((record_job_outcome env 7 (some long) world).1.committed ≡ world.committed)
record_job_outcome_too_long_example =
    record_job_outcome_too_long env 7 long world job refl refl too_long

-- an upload that was never finished, and the time at which it is overdue
abbrev late : World
late =
    world_at 10_000_000
      (record tables { photos = photo 9 CranePhotoStatus.pending_upload "k9" ∷ tables.photos })

abbrev reaps : World
reaps = (reap env late).1

reaps_one : reap env late ≡ (ok 1, reaps)
unfolding reap queue_all expired_uploads create_delete_crane_job create_task insert_job gets ◌>>=◌
    query modify execute draw commit
reaps_one = refl

reap_ok_example :
    (1 ≡ length (overdue env late))
    × (all {A = CranePhoto} (λ p. is_marked reaps.committed.photos p.id) (overdue env late) ≡ true)
reap_ok_example = reap_ok env late reaps 1 reaps_one

-- Both jobs of the table are in one batch.
answers : Answers env start
unfolding get_r2_config
answers = record { calm = refl; willing = refl; config = _; configured = refl; connects = refl }

run_delete_batch_completes_example :
    ((run_delete_batch env (λ _. false) start).0 ≡ ok (length (batch env start)))
    × ((run_delete_batch env (λ _. false) start).1.requests
        ≡ removals (map claim_of (batch env start)))
    × (all
          (λ j. is_completed (run_delete_batch env (λ _. false) start).1.committed j.id)
          (batch env start)
        ≡ true)
run_delete_batch_completes_example = run_delete_batch_completes env start answers

drains : Drains env start
drains = record { free = refl; enough = omega arith }

start-IsQueued : IsQueued start.working
start-IsQueued = record { photo_ids = refl; job_ids = refl; queued = refl }

run_delete_batch_drains_example :
    (all {A = CranePhoto}
        (λ p. not (awaits_deletion p))
        (run_delete_batch env (λ _. false) start).1.committed.photos
      ≡ true)
    × (all {A = CranePhoto}
          (λ p.
            not (awaits_deletion p)
            || any (is_removal p.storage_key) (run_delete_batch env (λ _. false) start).1.requests)
          start.working.photos
        ≡ true)
run_delete_batch_drains_example =
    run_delete_batch_drains env start drains answers start-IsQueued start-IsQueued

-- The third statement of the session fails, and R2 refuses to remove an object.
abbrev troubled : World
troubled = record start { faults = false ∷ false ∷ true ∷ []; replies = Reply.refused ∷ [] }

worker_cycle_total_example :
    (deleted reaped : ℕ) × ((run_delete_batch env (λ _. false) troubled).0 ≡ ok deleted)
    × (deleted ≤ env.settings.job_batch_size)
    × Adds env (run_reap_crane_photos env (run_delete_batch env (λ _. false) troubled).1).0 reaped
    × ((worker_cycle env (λ _. false) troubled).0 ≡ ok (deleted + reaped))
    × (reaped ≤ env.settings.job_batch_size)
    × ((worker_cycle env (λ _. false) troubled).1.committed
        ≡ (run_reap_crane_photos env (run_delete_batch env (λ _. false) troubled).1).1.committed)
    × ((worker_cycle env (λ _. false) troubled).1.working
        ≡ (worker_cycle env (λ _. false) troubled).1.committed)
    × (worker_loop env ((λ _. false) ∷ (λ _. true) ∷ []) troubled
        ≡ worker_loop env ((λ _. true) ∷ []) (worker_cycle env (λ _. false) troubled).1)
worker_cycle_total_example = worker_cycle_total env (λ _. false) ((λ _. true) ∷ []) troubled
