-- ===== src/System/Drain/Batch.antt =====
-- A batch of the worker (`run_delete_batch` of app/worker/photo_jobs.py) keeps an invariant of the tables.
use crane_tracker.Base.{ℕ, ◌≡◌, sym, subst, String, Bool, Option, none, some, List, [], ◌∷◌, arith}
use crane_tracker.Models.{Db}
use crane_tracker.Errors.{Error, sql_alchemy}
use crane_tracker.Env.{Env}
use crane_tracker.Exec.{World, attempt, ask, lift, pure, ◌>>=◌}
use crane_tracker.Exec.Keeps.{
  Keeps, Recovers, keeps_rules, Keeps-bind, Keeps-pure, Keeps-rescue, Recovers-bind,
}
use crane_tracker.Storage
use crane_tracker.Worker.Jobs.{ClaimedJob}
use crane_tracker.Worker.Batch.{
  process_job, process_jobs, process_batch, claim_batch, run_delete_batch, zero_on_sql_error,
}
use crane_tracker.System.Respects.{Respects}
use crane_tracker.System.Handlers.{record_job_outcome-Keeps}

module _ (env : Env) where
  -- A removal of an object leaves the tables alone, whatever R2 answers.
  delete_photo_tables :
      (key : String) (w : World)
      → ((Storage.delete_photo env key w).1.working ≡ w.working)
        × ((Storage.delete_photo env key w).1.committed ≡ w.committed)
  unfolding Storage.delete_photo Storage.get_s3_client Storage.connected Storage.checked lift ◌>>=◌
      ask pure
  delete_photo_tables key w = ground arith

module _ (env : Env) {P : Db → Type 0} (o : Respects env P) where
  removal-Keeps : (key : String) → Keeps P (attempt (Storage.delete_photo env key))
  unfolding attempt
  removal-Keeps key = record {
    at = λ w h k.
        let (working, committed) = delete_photo_tables env key w in
        (subst P (sym committed) h, subst P (sym working) k);
  }

  process_job-Keeps : (c : ClaimedJob) → Keeps P (process_job env c)
  unfolding process_job
  process_job-Keeps c = search (keeps_rules, removal-Keeps, record_job_outcome-Keeps env o) depth 9

  process_jobs-Keeps :
      (shutdown : ℕ → Bool) (jobs : List ClaimedJob) (n : ℕ)
      → Keeps P (process_jobs env shutdown jobs n)
  unfolding process_jobs
  process_jobs-Keeps shutdown [] n = search keeps_rules
  process_jobs-Keeps shutdown (c ∷ jobs) n =
      search (keeps_rules, process_job-Keeps, process_jobs-Keeps shutdown jobs)

  zero_on_sql_error-Recovers : (e : Error) → Recovers P (zero_on_sql_error e)
  unfolding zero_on_sql_error
  zero_on_sql_error-Recovers (sql_alchemy _) = search keeps_rules
  zero_on_sql_error-Recovers _ = search keeps_rules

  claim_batch-Keeps : Keeps P (claim_batch env)
  unfolding claim_batch
  claim_batch-Keeps =
      Keeps-rescue _ _ (Keeps-bind _ _ o.claimed (λ _. Keeps-pure _))
        (λ e. Recovers-bind _ _ (zero_on_sql_error-Recovers e) (λ _. Keeps-pure _))

  process_batch-Keeps :
      (shutdown : ℕ → Bool) (jobs : Option (List ClaimedJob))
      → Keeps P (process_batch env shutdown jobs)
  unfolding process_batch
  process_batch-Keeps shutdown none = search keeps_rules
  process_batch-Keeps shutdown (some jobs) = process_jobs-Keeps shutdown jobs 0

  -- A batch keeps what every transaction keeps.
  pub run_delete_batch-Keeps : (shutdown : ℕ → Bool) → Keeps P (run_delete_batch env shutdown)
  unfolding run_delete_batch
  run_delete_batch-Keeps shutdown = Keeps-bind _ _ claim_batch-Keeps (process_batch-Keeps shutdown)
