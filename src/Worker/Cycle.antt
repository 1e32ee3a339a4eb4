-- ===== src/Worker/Cycle.antt =====
-- A cycle of the worker, and its loop (app/worker/main.py): they end, whatever fails.
use crane_tracker.Base.{
  ◌⊎◌, inl, inr, order_by, ascending, select, not, ◌&&◌, ℕ, ◌+◌, ◌≤◌, ◌≡◌, refl, ap, Bool, List,
  ◌∷◌, arith, length-take,
}
use crane_tracker.Errors.{Result, ok, err, Error, sql_alchemy}
use crane_tracker.Env.{Env}
use crane_tracker.Exec.{
  World, now, ◌>>◌, pure, rescue, caught, attempt, rollback, raise, continue, ◌>>=◌,
}
use crane_tracker.Worker.Batch.{
  reap, expired_uploads, is_expired_upload, run_delete_batch, run_reap_crane_photos, then_reap,
  worker_cycle, worker_loop, zero_on_sql_error,
}
use crane_tracker.Worker.Jobs.{milliseconds}
use crane_tracker.Worker.Completion.Steps.{continue-ok}
use crane_tracker.Worker.Reaper.{reap_ok}
use crane_tracker.Worker.Total.{run_delete_batch_total}

module _ (env : Env) where
  zero_count : (e : Error) (n : ℕ) (w w' : World) → zero_on_sql_error e w ≡ (ok n, w') → n ≡ 0
  unfolding zero_on_sql_error rollback ◌>>=◌ pure raise
  zero_count (sql_alchemy _) n w w' h = ground arith
  zero_count _ n w w' h = ground arith

  reap_count : (n : ℕ) (w w' : World) → reap env w ≡ (ok n, w') → n ≤ env.settings.job_batch_size
  unfolding expired_uploads
  reap_count n w w' h =
      let (number, _) = reap_ok env w w' n h in
      let claimable = order_by (ascending (λ p. p.added_at)) (
        select
          (λ p.
            is_expired_upload (milliseconds env.settings.photo_reaper_delay) (now w) p
            && not (w.locked p.id))
          w.working.photos) in
      omega (arith, number, length-take env.settings.job_batch_size claimable)

  caught_count :
      (n : ℕ) (w' : World) (r : Result ℕ × World) (high : ℕ)
      → ((m : ℕ) (v : World) → r ≡ (ok m, v) → m ≤ high)
      → caught r zero_on_sql_error ≡ (ok n, w')
      → n ≤ high
  caught_count n w' (ok m, v) high below h = below n w' h
  caught_count n w' (err e, v) high below h = omega (arith, zero_count e n v w' h)

  run_reap_count :
      (n : ℕ) (w w' : World)
      → run_reap_crane_photos env w ≡ (ok n, w')
      → n ≤ env.settings.job_batch_size
  unfolding run_reap_crane_photos rescue
  run_reap_count n w w' h =
      caught_count n w' (reap env w) env.settings.job_batch_size (λ m v r. reap_count m w v r) h

  -- the number that a run of the reaper adds: what it returned, or nothing where it raised
  abbrev pub Adds : Result ℕ → ℕ → Type 0
  Adds r n = (r ≡ ok n) ⊎ ((e : Error) × (r ≡ err e) × (n ≡ 0))

  abbrev Closes : ℕ → Result ℕ × World → Result ℕ × World → Type 0
  Closes deleted ran r =
      (reaped : ℕ) × Adds ran.0 reaped
      × (r.0 ≡ ok (deleted + reaped))
      × (reaped ≤ env.settings.job_batch_size)
      × (r.1.committed ≡ ran.1.committed)
      × (r.1.working ≡ r.1.committed)

  closes :
      (deleted : ℕ) (r : Result ℕ × World)
      → ((m : ℕ) (v : World) → r ≡ (ok m, v) → m ≤ env.settings.job_batch_size)
      → Closes deleted r (
          continue
            (continue
              (ok r.0, r.1)
              (λ (reaped : Result ℕ). pure (elim reaped [ ok n ↦ deleted + n | err e ↦ deleted ])))
            (λ processed. rollback >> pure processed))
  unfolding pure rollback ◌>>=◌
  closes deleted (ok n, v) below = (n, inl refl, refl, below n v refl, refl, refl)
  closes deleted (err e, v) below =
      (0, inr (e, refl, refl), ap ok (omega arith), omega arith, refl, refl)

  cycle_total :
      (shutdown : ℕ → Bool) (w : World)
      → (deleted reaped : ℕ) × ((run_delete_batch env shutdown w).0 ≡ ok deleted)
        × (deleted ≤ env.settings.job_batch_size)
        × Adds (run_reap_crane_photos env (run_delete_batch env shutdown w).1).0 reaped
        × ((worker_cycle env shutdown w).0 ≡ ok (deleted + reaped))
        × (reaped ≤ env.settings.job_batch_size)
        × ((worker_cycle env shutdown w).1.committed
            ≡ (run_reap_crane_photos env (run_delete_batch env shutdown w).1).1.committed)
        × ((worker_cycle env shutdown w).1.working ≡ (worker_cycle env shutdown w).1.committed)
  unfolding worker_cycle then_reap attempt ◌>>=◌
  cycle_total shutdown w =
      let (deleted, returned, few) = run_delete_batch_total env shutdown w in
      let after = (run_delete_batch env shutdown w).1 in
      let (reaped, adds, number, bound, left, closed) =
        closes deleted (run_reap_crane_photos env after) (λ m v r. run_reap_count m after v r) in
      rw returned (deleted, reaped, refl, few, adds, number, bound, left, closed)

  -- A cycle of the worker ends without an exception, whichever statements fail, whatever R2 answers and
  -- whenever the shutdown comes: it returns the number of its batch and that of the reaper, run on what
  -- the batch left, or nothing for a reaper that raises, each at most the size of a batch. What the
  -- reaper has committed is committed, and no transaction is open; the loop goes on with its next round.
  pub worker_cycle_total :
      (shutdown : ℕ → Bool) (rounds : List (ℕ → Bool)) (w : World)
      → (deleted reaped : ℕ) × ((run_delete_batch env shutdown w).0 ≡ ok deleted)
        × (deleted ≤ env.settings.job_batch_size)
        × Adds (run_reap_crane_photos env (run_delete_batch env shutdown w).1).0 reaped
        × ((worker_cycle env shutdown w).0 ≡ ok (deleted + reaped))
        × (reaped ≤ env.settings.job_batch_size)
        × ((worker_cycle env shutdown w).1.committed
            ≡ (run_reap_crane_photos env (run_delete_batch env shutdown w).1).1.committed)
        × ((worker_cycle env shutdown w).1.working ≡ (worker_cycle env shutdown w).1.committed)
        × (worker_loop env (shutdown ∷ rounds) w
            ≡ worker_loop env rounds (worker_cycle env shutdown w).1)
  unfolding worker_loop ◌>>=◌
  worker_cycle_total shutdown rounds w =
      let (deleted, reaped, returned, few, adds, number, bound, left, closed) =
        cycle_total shutdown w in
      (
        deleted,
        reaped,
        returned,
        few,
        adds,
        number,
        bound,
        left,
        closed,
        continue-ok (worker_cycle env shutdown w) (λ _. worker_loop env rounds) (deleted + reaped)
            number,
      )
