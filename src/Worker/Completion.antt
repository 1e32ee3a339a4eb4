-- ===== src/Worker/Completion.antt =====
-- A batch of the worker (`run_delete_batch` of app/worker/photo_jobs.py), where the database and the
-- bucket answer.
pub mod Rows
pub mod Steps
use crane_tracker.Base.{
  all-take, all-order_by, all-select, ℕ, ◌+◌, ◌≡◌, refl, sym, subst, ◌∙◌, Bool, true, false, some,
  List, [], ◌∷◌, ◌&&◌, ◌||◌, ◌++◌, not, arith, any, all, map, update, length, ap, select, ascending,
}
use crane_tracker.Models.{OutboxJob, JobOperation, Db}
use crane_tracker.Errors.{ok}
use crane_tracker.Env.{Env}
use crane_tracker.Exec.{◌>>=◌, World, now, pure, gets, modify, rescue, query, commit}
use crane_tracker.Storage
use crane_tracker.Worker.Jobs.{
  claim_of, claim_jobs, claimable_jobs, is_among, is_claimable, claimed, seconds, has_id,
}
use crane_tracker.Worker.Batch.{claim_batch, process_batch, run_delete_batch}
use Rows.{is_completed, is_done, is_done_but, removals, has_job, any-update}
use Steps.{Answers, continue-ok, Answers-kept, Completes, Completes-process_jobs}
pub use Rows.{is_completed, is_done, removals}
pub use Steps.{Answers}

seen_further :
    (k : OutboxJob) (rows jobs : List OutboxJob)
    → all (λ j. any (has_id j.id) rows) jobs ≡ true
    → all (λ j. any (has_id j.id) (k ∷ rows)) jobs ≡ true
seen_further k rows [] h = refl
seen_further k rows (j ∷ jobs) h = ground (arith, seen_further k rows jobs)

own_ids : (rows : List OutboxJob) → all (λ j. any (has_id j.id) rows) rows ≡ true
own_ids [] = refl
own_ids (j ∷ rows) = ground (arith, seen_further j rows rows (own_ids rows))

claimed_there :
    (test : OutboxJob → Bool) (lease : ℕ) (rows jobs : List OutboxJob)
    → all (λ j. any (has_id j.id) rows) jobs ≡ true
    → all (λ c. any (has_id c.id) (update test (claimed lease) rows)) (map claim_of jobs) ≡ true
claimed_there test lease rows [] h = refl
claimed_there test lease rows (j ∷ jobs) h = ground (
  arith,
  any-update j.id test (claimed lease) rows (λ k. refl),
  claimed_there test lease rows jobs,
)

completed_claims :
    (d : Db) (jobs : List OutboxJob)
    → all (λ c. is_completed d c.id) (map claim_of jobs) ≡ all (λ j. is_completed d j.id) jobs
completed_claims d [] = refl
completed_claims d (j ∷ jobs) = ground (arith, completed_claims d jobs)

same_ids :
    (j : OutboxJob) (jobs : List OutboxJob)
    → is_among jobs j ≡ any (λ c. has_id c.id j) (map claim_of jobs)
same_ids j [] = refl
same_ids j (k ∷ jobs) = ground (arith, same_ids j jobs)

-- The jobs that are open after the claim are those that were claimed.
open_claimed :
    (lease : ℕ) (jobs rows : List OutboxJob)
    → all (λ j. is_done j || is_among jobs j) rows ≡ true
    → all (is_done_but (map claim_of jobs)) (update (is_among jobs) (claimed lease) rows) ≡ true
open_claimed lease jobs [] h = refl
open_claimed lease jobs (j ∷ rows) h = ground (arith, same_ids j jobs, open_claimed lease jobs rows)

pub length-map : (jobs : List OutboxJob) → length (map claim_of jobs) ≡ length jobs
length-map [] = refl
length-map (j ∷ jobs) = omega (arith, length-map jobs)

module _ (env : Env) where
  -- the jobs that a batch takes
  abbrev pub batch : World → List OutboxJob
  batch w =
      claimable_jobs JobOperation.delete env.settings.job_batch_size (now w) w.locked w.working

  claims :
      (w : World)
      → w.faults ≡ []
      → ((claim_batch env w).0 ≡ ok (some (map claim_of (batch w))))
        × ((claim_batch env w).1.faults ≡ [])
        × ((claim_batch env w).1.replies ≡ w.replies)
        × ((claim_batch env w).1.committed.jobs ≡ (claim_batch env w).1.working.jobs)
        × ((claim_batch env w).1.requests ≡ w.requests)
        × ((claim_batch env w).1.working.jobs
            ≡ update
                (is_among (batch w))
                (claimed (now w + seconds env.settings.lock_lease_window))
                w.working.jobs)
  unfolding claim_batch claim_jobs ◌>>=◌ gets query modify commit pure rescue
  claims w calm = ground arith

  batch_there : (w : World) → all (λ j. any (has_id j.id) w.working.jobs) (batch w) ≡ true
  unfolding claimable_jobs
  batch_there w =
      let there : OutboxJob → Bool = λ j. any (has_id j.id) w.working.jobs in
      let free : OutboxJob → Bool =
        λ j. is_claimable JobOperation.delete (now w) j && not (w.locked j.id) in
      all-take there env.settings.job_batch_size _ (
        all-order_by (ascending (λ j. j.created_at)) there (select free w.working.jobs)
        ∙ all-select free there w.working.jobs (own_ids w.working.jobs))

  -- The batch goes through its claims.
  outcome :
      (w : World)
      → Answers env w
      → Completes env
          (map claim_of (batch w))
          0
          (claim_batch env w).1
          (run_delete_batch env (λ _. false) w)
  unfolding run_delete_batch process_batch ◌>>=◌
  outcome w a =
      let (took, calm, willing, saved, asked, rows) = claims w a.calm in
      let w₁ = (claim_batch env w).1 in
      let jobs = map claim_of (batch w) in
      let lease = now w + seconds env.settings.lock_lease_window in
      let there : all (λ c. has_job w₁.working c.id) jobs ≡ true =
        subst (λ js. all (λ c. any (has_id c.id) js) jobs ≡ true) (sym rows)
          (claimed_there (is_among (batch w)) lease w.working.jobs (batch w) (batch_there w)) in
      subst (Completes env jobs 0 w₁)
        (sym (continue-ok (claim_batch env w) (process_batch env (λ _. false)) (some jobs) took))
        (Completes-process_jobs env jobs 0 w₁ (Answers-kept env w w₁ a calm (willing ∙ a.willing))
          saved there)

  -- Where the database and the bucket answer and no shutdown comes, a batch of the worker ends: it
  -- returns the number of the jobs that it could claim, up to its size, the bucket has been asked to
  -- remove the object of each, in the order of the claims, and each of them is completed.
  pub run_delete_batch_completes :
      (w : World)
      → Answers env w
      → ((run_delete_batch env (λ _. false) w).0 ≡ ok (length (batch w)))
        × ((run_delete_batch env (λ _. false) w).1.requests
            ≡ w.requests ++ removals (map claim_of (batch w)))
        × (all (λ j. is_completed (run_delete_batch env (λ _. false) w).1.committed j.id) (batch w)
            ≡ true)
  run_delete_batch_completes w a =
      let (done, all_done, stay, requests, finish) = outcome w a in
      (
        done ∙ ap ok (omega (arith, length-map (batch w))),
        requests ∙ ap (λ rs. rs ++ removals (map claim_of (batch w))) (claims w a.calm).4,
        sym (completed_claims (run_delete_batch env (λ _. false) w).1.committed (batch w))
            ∙ all_done,
      )

  -- If the batch takes every job that is not completed, then it completes them all.
  pub run_delete_batch_finishes :
      (w : World)
      → Answers env w
      → all (λ j. is_done j || is_among (batch w) j) w.working.jobs ≡ true
      → all is_done (run_delete_batch env (λ _. false) w).1.committed.jobs ≡ true
  run_delete_batch_finishes w a open_taken =
      let (done, all_done, stay, requests, finish) = outcome w a in
      let lease = now w + seconds env.settings.lock_lease_window in
      finish (
        ap (all (is_done_but (map claim_of (batch w)))) (claims w a.calm).5
        ∙ open_claimed lease (batch w) w.working.jobs open_taken)
