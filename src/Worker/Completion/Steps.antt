-- ===== src/Worker/Completion/Steps.antt =====
-- Jobs of the worker that succeed, one after the other (app/worker/photo_jobs.py).
use mathlib.Core.List.{append-nil, append_assoc}
use crane_tracker.Base.{
  ℕ, suc, ◌+◌, ◌≡◌, refl, sym, subst, ◌∙◌, String, Bool, true, false, none, some, List, [], ◌∷◌,
  ◌&&◌, ◌++◌, arith, any, all, find, update, length, ap,
}
use crane_tracker.Models.{OutboxJob, JobStatus, Db, job_status_eq}
use crane_tracker.Errors.{Result, ok, err, ok-injective}
use crane_tracker.Env.{Env}
use crane_tracker.Database.{delete_photos}
use crane_tracker.Exec.{
  World, continue, Action, now, pure, lift, gets, ask, attempt, rescue, ◌>>=◌, query, execute,
  commit, or_raise, Request, remove,
}
use crane_tracker.Storage
use crane_tracker.Storage.{R2Config, get_r2_config}
use crane_tracker.Worker.Jobs.{
  ClaimedJob, record_job_outcome, capture_success, completed_row, has_id,
}
use crane_tracker.Worker.Batch.{process_job, process_jobs}
use crane_tracker.Worker.Completion.Rows.{
  is_completed, is_done, is_done_but, removals, has_job, completes, stays_completed, find-any,
  any-update, one_more_done, all_done,
}

-- The database fails no statement, the bucket does what it is asked, and storage is configured.
pub record Answers (env : Env) (w : World) : Type 0 where
  pub calm : w.faults ≡ []
  pub willing : w.replies ≡ []
  pub config : R2Config
  pub configured : get_r2_config env.settings ≡ ok config
  pub connects :
      env.connects config.endpoint_url config.access_key_id config.secret_access_key ≡ true

-- what comes after an action that has returned
pub continue-ok :
    {A B : Type 0} (r : Result A × World) (f : A → Action B) (a : A)
    → r.0 ≡ ok a
    → continue r f ≡ f a r.1
continue-ok (ok b, w) f a h = ap (λ x. f x w) (ok-injective h)
continue-ok (err e, w) f a h = cc

module _ (env : Env) where
  -- The object is removed, and the database is as it was.
  removes :
      (key : String) (w : World)
      → Answers env w
      → ((Storage.delete_photo env key w).0 ≡ ok tt)
        × ((Storage.delete_photo env key w).1.faults ≡ [])
        × ((Storage.delete_photo env key w).1.replies ≡ [])
        × ((Storage.delete_photo env key w).1.working ≡ w.working)
        × ((Storage.delete_photo env key w).1.committed ≡ w.committed)
        × ((Storage.delete_photo env key w).1.requests ≡ w.requests ++ remove key ∷ [])
  unfolding Storage.delete_photo Storage.get_s3_client Storage.connected Storage.checked lift ◌>>=◌
      ask pure
  removes key w a = ground (arith, a.configured, a.connects, a.willing, a.calm)

  -- What a job that succeeds leaves: the time at which it is completed is that of its transaction.
  abbrev Succeeds : ℕ → List Request → World → Result Bool × World → Type 0
  Succeeds id asked w r =
      (time : ℕ) × (r.0 ≡ ok true)
      × (r.1.faults ≡ [])
      × (r.1.replies ≡ [])
      × (r.1.working.jobs ≡ update (has_id id) (completed_row time) w.working.jobs)
      × (r.1.committed.jobs ≡ update (has_id id) (completed_row time) w.working.jobs)
      × (r.1.requests ≡ w.requests ++ asked)

  records :
      (id : ℕ) (w : World) (job : OutboxJob)
      → w.faults ≡ []
      → w.replies ≡ []
      → find (has_id id) w.working.jobs ≡ some job
      → Succeeds id [] w (record_job_outcome env id none w)
  unfolding record_job_outcome capture_success ◌>>=◌ query execute commit rescue delete_photos gets
      or_raise
  records id w job calm willing found = (
    now w,
    ground arith,
    ground arith,
    ground arith,
    ground arith,
    ground arith,
    ground (arith, append-nil w.requests),
  )

  succeeds :
      (c : ClaimedJob) (w : World)
      → Answers env w
      → has_job w.working c.id ≡ true
      → Succeeds c.id (remove c.storage_key ∷ []) w (process_job env c w)
  unfolding process_job attempt ◌>>=◌
  succeeds c w a there =
      let (done, calm, willing, same, kept, asked) = removes c.storage_key w a in
      let w₁ = (Storage.delete_photo env c.storage_key w).1 in
      let (job, found) = find-any c.id w.working.jobs there in
      let (time, d, e, f, g, h, still) = records c.id w₁ job calm willing (rw same found) in
      let rows : w₁.working.jobs ≡ w.working.jobs = ap (λ (x : Db). x.jobs) same in
      let after = ap (update (has_id c.id) (completed_row time)) rows in
      rw done (time, d, e, f, g ∙ after, h ∙ after, still ∙ append-nil w₁.requests ∙ asked)

  pub Answers-kept :
      (w w' : World) → Answers env w → w'.faults ≡ [] → w'.replies ≡ [] → Answers env w'
  Answers-kept w w' a calm willing = record {
    calm = calm;
    willing = willing;
    config = a.config;
    configured = a.configured;
    connects = a.connects;
  }

  all_there :
      (jobs : List ClaimedJob) (d d' : Db) (id time : ℕ)
      → d'.jobs ≡ update (has_id id) (completed_row time) d.jobs
      → all (λ c. has_job d c.id) jobs ≡ true
      → all (λ c. has_job d' c.id) jobs ≡ true
  all_there [] d d' id time e h = refl
  all_there (c ∷ jobs) d d' id time e h =
      let same : has_job d' c.id ≡ has_job d c.id =
        ap (any (has_id c.id)) e
        ∙ any-update c.id (has_id id) (completed_row time) d.jobs (λ j. refl) in
      ground (arith, same, all_there jobs d d' id time e)

  -- Of an outcome: all of the jobs are counted and completed, and those that were completed stay so;
  -- the bucket is asked to remove their objects, in their order; and if no other job was open, then
  -- none is.
  abbrev pub Completes : List ClaimedJob → ℕ → World → Result ℕ × World → Type 0
  Completes jobs n w r =
      (r.0 ≡ ok (n + length jobs))
      × (all (λ c. is_completed r.1.committed c.id) jobs ≡ true)
      × ((id : ℕ) → is_completed w.working id ≡ true → is_completed r.1.committed id ≡ true)
      × (r.1.requests ≡ w.requests ++ removals jobs)
      × (all (is_done_but jobs) w.working.jobs ≡ true → all is_done r.1.committed.jobs ≡ true)

  next :
      (r : Result Bool × World) (rest : Action ℕ)
      → r.0 ≡ ok true
      → continue r (λ _. rest) ≡ rest r.1
  next (ok b, w) rest h = refl
  next (err e, w) rest h = cc

  and_one_more :
      (c : ClaimedJob) (jobs : List ClaimedJob) (n time : ℕ) (w w₁ : World) (r : Result ℕ × World)
      → has_job w.working c.id ≡ true
      → w₁.working.jobs ≡ update (has_id c.id) (completed_row time) w.working.jobs
      → w₁.requests ≡ w.requests ++ remove c.storage_key ∷ []
      → Completes jobs (suc n) w₁ r
      → Completes (c ∷ jobs) n w r
  and_one_more c jobs n time w w₁ r there rows asked (done, all_done, stay, requests, finish) =
      let row : (i : ℕ)
          → is_completed w₁.working i
            ≡ any (λ j. has_id i j && job_status_eq j.status JobStatus.completed)
                (update (has_id c.id) (completed_row time) w.working.jobs) =
        λ i. ap (any (λ j. has_id i j && job_status_eq j.status JobStatus.completed)) rows in
      let own : is_completed r.1.committed c.id ≡ true =
        stay c.id (row c.id ∙ completes time c.id w.working.jobs there) in
      (
        done ∙ ap ok (omega arith),
        rw (own, all_done) refl,
        λ i h. stay i (row i ∙ stays_completed time i c.id w.working.jobs h),
        requests
            ∙ ap (λ rs. rs ++ removals jobs) asked
            ∙ append_assoc w.requests (remove c.storage_key ∷ []) (removals jobs),
        λ h. finish (ap (all (is_done_but jobs)) rows ∙ one_more_done time c jobs w.working.jobs h),
      )

  pub Completes-process_jobs :
      (jobs : List ClaimedJob) (n : ℕ) (w : World)
      → Answers env w
      → w.committed.jobs ≡ w.working.jobs
      → all (λ c. has_job w.working c.id) jobs ≡ true
      → Completes jobs n w (process_jobs env (λ _. false) jobs n w)
  unfolding process_jobs ◌>>=◌ pure
  Completes-process_jobs [] n w a saved there = (
    ap ok (omega arith),
    refl,
    λ id h. ap (any (λ j. has_id id j && job_status_eq j.status JobStatus.completed)) saved ∙ h,
    sym (append-nil w.requests),
    λ h. ap (all is_done) saved ∙ all_done w.working.jobs h,
  )
  Completes-process_jobs (c ∷ jobs) n w a saved there =
      let here : has_job w.working c.id ≡ true = ground (arith, there) in
      let (time, d, calm, willing, rows, kept, asked) = succeeds c w a here in
      let w₁ = (process_job env c w).1 in
      let rest =
        Completes-process_jobs jobs (suc n) w₁ (Answers-kept w w₁ a calm willing) (kept ∙ sym rows)
          (all_there jobs w.working w₁.working c.id time rows (ground (arith, there))) in
      subst (Completes (c ∷ jobs) n w)
        (sym (
          continue-ok (process_job env c w) (λ _. process_jobs env (λ _. false) jobs (suc n)) true
            d))
        (and_one_more c jobs n time w w₁ (process_jobs env (λ _. false) jobs (suc n) w₁) here rows
          asked rest)
