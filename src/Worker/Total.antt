-- ===== src/Worker/Total.antt =====
-- The end of a batch of the worker (`run_delete_batch` of app/worker/photo_jobs.py).
use crane_tracker.Base.{
  order_by, ascending, select, not, ◌&&◌, ℕ, suc, ◌+◌, ◌≤◌, ◌≡◌, refl, sym, ap, subst, ◌∙◌, Bool,
  none, some, List, [], ◌∷◌, ◌⊎◌, inl, inr, Bool-cases, arith, map, length, length-take,
}
use crane_tracker.Errors.{Result, ok}
use crane_tracker.Env.{Env}
use crane_tracker.Exec.{
  now, World, pure, gets, query, modify, commit, rescue, attempt, rollback, ◌>>=◌,
}
use crane_tracker.Worker.Jobs.{ClaimedJob, claim_of, claim_jobs, claimable_jobs, is_claimable}
use crane_tracker.Worker.Batch.{
  process_job, process_jobs, claim_batch, process_batch, run_delete_batch, zero_on_sql_error,
}
use crane_tracker.Storage
use crane_tracker.Models.{JobOperation}
use crane_tracker.Worker.Retry.{record_job_outcome_total}
use crane_tracker.Worker.Completion.{batch, length-map}
use crane_tracker.Worker.Completion.Steps.{continue-ok}

module _ (env : Env) where
  -- A job raises nothing: a failed removal is an outcome, and recording an outcome never raises.
  process_job_total : (c : ClaimedJob) (w : World) → (b : Bool) × ((process_job env c w).0 ≡ ok b)
  unfolding process_job attempt ◌>>=◌
  process_job_total c w =
      (_, (record_job_outcome_total env c.id _ (Storage.delete_photo env c.storage_key w).1).0)

  -- the number that is returned, between bounds
  abbrev Counts : ℕ → ℕ → Result ℕ × World → Type 0
  Counts low high r = (m : ℕ) × (r.0 ≡ ok m) × (low ≤ m) × (m ≤ high)

  process_jobs_total :
      (shutdown : ℕ → Bool) (jobs : List ClaimedJob) (n : ℕ) (w : World)
      → Counts n (n + length jobs) (process_jobs env shutdown jobs n w)
  unfolding process_jobs pure ◌>>=◌
  process_jobs_total shutdown [] n w = (n, refl, omega arith, omega arith)
  process_jobs_total shutdown (c ∷ jobs) n w = elim (Bool-cases (shutdown n)) [
    | inl stop ↦ rw stop (n, refl, omega arith, omega arith)
    | inr going ↦
        let (b, done) = process_job_total c w in
        let rest = process_jobs env shutdown jobs (suc n) in
        let (m, returned, low, high) =
          process_jobs_total shutdown jobs (suc n) (process_job env c w).1 in
        rw going (
          subst (Counts n (n + length (c ∷ jobs)))
            (sym (continue-ok (process_job env c w) (λ _. rest) b done))
            (m, returned, omega (arith, low), omega (arith, high)))
  ]

  claim_batch_total :
      (w : World)
      → ((claim_batch env w).0 ≡ ok none)
        ⊎ ((claim_batch env w).0 ≡ ok (some (map claim_of (batch env w))))
  unfolding claim_batch claim_jobs ◌>>=◌ gets query modify commit pure rescue zero_on_sql_error
      rollback
  claim_batch_total w = ground arith

  batch-le : (w : World) → length (map claim_of (batch env w)) ≤ env.settings.job_batch_size
  unfolding claimable_jobs
  batch-le w =
      let claimable = order_by (ascending (λ j. j.created_at)) (
        select (λ j. is_claimable JobOperation.delete (now w) j && not (w.locked j.id))
          w.working.jobs) in
      omega (arith, length-map (batch env w), length-take env.settings.job_batch_size claimable)

  -- A batch of the worker ends without an exception, whichever statements fail, whatever R2 answers
  -- and whenever the shutdown comes, and returns a number of at most the size of a batch.
  pub run_delete_batch_total :
      (shutdown : ℕ → Bool) (w : World)
      → (n : ℕ) × ((run_delete_batch env shutdown w).0 ≡ ok n) × (n ≤ env.settings.job_batch_size)
  unfolding run_delete_batch process_batch ◌>>=◌ pure
  run_delete_batch_total shutdown w = elim (claim_batch_total w) [
    | inl failed ↦
        let step = continue-ok (claim_batch env w) (process_batch env shutdown) none failed in
        (0, ap (λ r. r.0) step, omega arith)
    | inr took ↦
        let jobs = map claim_of (batch env w) in
        let step = continue-ok (claim_batch env w) (process_batch env shutdown) (some jobs) took in
        let (n, returned, low, high) = process_jobs_total shutdown jobs 0 (claim_batch env w).1 in
        (n, ap (λ r. r.0) step ∙ returned, omega (arith, high, batch-le w))
  ]
