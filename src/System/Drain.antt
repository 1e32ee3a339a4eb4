-- ===== src/System/Drain.antt =====
-- A batch of the worker (`run_delete_batch` of app/worker/photo_jobs.py) and the photos that are
-- marked for deletion.
mod Batch
mod Rows
use crane_tracker.Base.{
  Bool-cases, inl, inr, map, ◌++◌, ◌==◌, ◌≡◌, ◌≤◌, refl, ap, ◌∙◌, Bool, true, false, List, ◌||◌,
  not, arith, any, all, count, select, order_by, ascending, text_eq,
}
use crane_tracker.Models.{CranePhoto, OutboxJob}
use crane_tracker.Env.{Env}
use crane_tracker.Exec.{World, Request}
use crane_tracker.Exec.Keeps.{Keeps-committed}
use crane_tracker.Worker.Jobs.{claim_of, claimable_jobs, is_among}
use crane_tracker.Worker.Batch.{run_delete_batch}
use crane_tracker.Worker.Completion.{
  Answers, batch, is_done, removals, run_delete_batch_completes, run_delete_batch_finishes,
}
use crane_tracker.System.References.Rows.{all-implied}
use crane_tracker.System.Outbox.{respects}
use crane_tracker.System.Outbox.Rows.{is_queued, IsQueued}
use Batch.{run_delete_batch-Keeps}
use Rows.{
  free, take_all, any-order_by, length-order_by, open_selected, free-le, own_selected, none_open,
  asked_each, asked_later, awaits_deletion, is_removal,
}
pub use Rows.{awaits_deletion, is_removal}

-- Every job that is not completed is free, and they are no more than a batch.
pub record Drains (env : Env) (w : World) : Type 0 where
  pub free : all (λ j. is_done j || free w j) w.working.jobs ≡ true
  pub enough : count (λ j. not (is_done j)) w.working.jobs ≤ env.settings.job_batch_size

module _ (env : Env) (w : World) (drains : Drains env w) where
  any-batch : (q : OutboxJob → Bool) → any q (batch env w) ≡ any q (select (free w) w.working.jobs)
  unfolding claimable_jobs
  any-batch q =
      let order : OutboxJob → OutboxJob → Bool = ascending (λ j. j.created_at) in
      let jobs = select (free w) w.working.jobs in
      ap (any q) (
        take_all env.settings.job_batch_size (order_by order jobs)
          (omega (arith, length-order_by order jobs, free-le w w.working.jobs, drains.enough)))
      ∙ any-order_by order q jobs

  all_taken : all (λ j. is_done j || is_among (batch env w) j) w.working.jobs ≡ true
  all_taken =
      all-implied _ _ w.working.jobs
        (λ j h. ap (λ b. is_done j || b) (any-batch (λ k. k.id == j.id)) ∙ h)
        (own_selected (free w) w.working.jobs drains.free)

  -- the object of a photo that is marked is among those that the batch removes
  asked_marked :
      (requests : List Request)
      → requests ≡ w.requests ++ removals (map claim_of (batch env w))
      → (p : CranePhoto) → is_queued w.working.jobs p ≡ true
      → (not (awaits_deletion p) || any (is_removal p.storage_key) requests) ≡ true
  asked_marked requests e p h = elim (Bool-cases (awaits_deletion p)) [
    | inr other ↦ rw other refl
    | inl marked ↦
        let key = p.storage_key in
        let found : any (λ j. text_eq j.storage_key key) (batch env w) ≡ true =
          any-batch _
          ∙ open_selected (free w) (λ j. text_eq j.storage_key key) w.working.jobs drains.free
              (ground (arith, h, marked)) in
        let asked : any (is_removal key) requests ≡ true =
          ap (any (is_removal key)) e
          ∙ asked_later key w.requests _ (asked_each key (batch env w) ∙ found) in
        ground (arith, asked)
  ]

  -- Where the database and the bucket answer and no shutdown comes: if the rows are queued as the
  -- transactions leave them, and every job that is not completed is free and they are no more than
  -- a batch, then after the batch no photo is marked for deletion, and the bucket has been asked to
  -- remove the object of each that was.
  pub run_delete_batch_drains :
      Answers env w
      → IsQueued w.committed
      → IsQueued w.working
      → (all (λ p. not (awaits_deletion p)) (run_delete_batch env (λ _. false) w).1.committed.photos
          ≡ true)
        × (all
              (λ p.
                not (awaits_deletion p)
                || any (is_removal p.storage_key) (run_delete_batch env (λ _. false) w).1.requests)
              w.working.photos
            ≡ true)
  run_delete_batch_drains a seen here =
      let after = (run_delete_batch env (λ _. false) w).1 in
      let queued : IsQueued after.committed =
        Keeps-committed _ w (run_delete_batch-Keeps env (respects env) (λ _. false)) seen here in
      let (count, requests, completed) = run_delete_batch_completes env w a in
      let finished = run_delete_batch_finishes env w a all_taken in
      (
        all-implied (is_queued after.committed.jobs) (λ p. not (awaits_deletion p))
            after.committed.photos
            (λ p h. ground (arith, none_open p.storage_key after.committed.jobs finished, h))
            queued.queued,
        all-implied (is_queued w.working.jobs)
            (λ p. not (awaits_deletion p) || any (is_removal p.storage_key) after.requests)
            w.working.photos (asked_marked after.requests requests) here.queued,
      )
