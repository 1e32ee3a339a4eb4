-- ===== src/System/Outbox/Jobs.antt =====
-- The worker's writes, the upload and the deletion of a crane keep the marked photos queued.
use crane_tracker.Base.{
  ℕ, ◌≡◌, refl, sym, subst, ◌∙◌, String, Bool, true, false, List, arith, update, text_eq, find,
}
use crane_tracker.Models.{Db, OutboxJob, JobOperation, JobStatus, job_status_eq}
use crane_tracker.Errors.{ok, ok-injective}
use crane_tracker.Env.{Env}
use crane_tracker.Database
use crane_tracker.Exec.{modify, execute}
use crane_tracker.Exec.Keeps.{Keeps, keeps_rules, Keeps-modify, Keeps-execute}
use crane_tracker.Exec.Leads.{
  Leads-query, Leads-or_raise, Leads-gets, Leads-bind, Leads-execute, Leads-commit, Keeps-Leads,
}
use crane_tracker.Worker.Jobs
use crane_tracker.Worker.Jobs.{has_id, completed_row, update_job, failed_row}
use crane_tracker.System.Outbox.Rows.{
  IsQueued, queued_mono, open-update, unique_jobs-update, unique_photos-delete,
}
use crane_tracker.System.Outbox.Complete.{keyed, find-keyed, queued_complete}

-- A change of some jobs that keeps ids and keys, and completes none.
update_IsQueued :
    (test : OutboxJob → Bool) (f : OutboxJob → OutboxJob) (d : Db)
    → ((j : OutboxJob) → (f j).id ≡ j.id)
    → ((j : OutboxJob) → (f j).storage_key ≡ j.storage_key)
    → ((j : OutboxJob) → job_status_eq (f j).status JobStatus.completed ≡ false)
    → IsQueued d
    → IsQueued (record d { jobs = update test f d.jobs })
update_IsQueued test f d ids keys status h = record {
  photo_ids = h.photo_ids;
  job_ids = unique_jobs-update test f d.jobs ids ∙ h.job_ids;
  queued =
      queued_mono d.jobs (update test f d.jobs) d.photos
        (λ key. open-update test f d.jobs key keys status) h.queued;
}

pub claimed-Keeps :
    (env : Env)
    → Keeps IsQueued (Jobs.claim_jobs env JobOperation.delete env.settings.job_batch_size)
unfolding Jobs.claim_jobs
claimed-Keeps env = search (keeps_rules, claim-Keeps) depth 9
  where
    claim-Keeps :
        (jobs : List OutboxJob) (lease : ℕ)
        → Keeps IsQueued (
            modify
              (λ d. record d { jobs = update (Jobs.is_among jobs) (Jobs.claimed lease) d.jobs }))
    claim-Keeps jobs lease =
        Keeps-modify _ (λ d. update_IsQueued _ _ d (λ j. refl) (λ j. refl) (λ j. refl))

not_completed :
    (env : Env) (j : OutboxJob)
    → job_status_eq (Jobs.after_failure env.settings j) JobStatus.completed ≡ false
not_completed env j = ground arith

failure_row_keeps :
    (env : Env) (id available_at : ℕ) (text : String) (d d' : Db)
    → Jobs.failure_row env id available_at text d ≡ ok d'
    → IsQueued d
    → IsQueued d'
failure_row_keeps env id available_at text d d' e h =
    subst IsQueued (sym (Jobs.failure_row_lem env id available_at text d d' e))
      (update_IsQueued (has_id id) _ d (λ j. refl) (λ j. refl) (not_completed env) h)

failure_row-Keeps :
    (env : Env) (id available_at : ℕ) (text : String)
    → Keeps IsQueued (execute (Jobs.failure_row env id available_at text))
failure_row-Keeps env id available_at text =
    Keeps-execute _ (failure_row_keeps env id available_at text)

pub failed-Keeps :
    (env : Env) (id : ℕ) (text : String) → Keeps IsQueued (Jobs.capture_failure env id text)
unfolding Jobs.capture_failure Jobs.calculate_backoff
failed-Keeps env id text = search (keeps_rules, failure_row-Keeps) depth 15

-- The tables with a job completed and its photos not yet removed.
record IsCompleting (job : OutboxJob) (d : Db) : Type 0 where
  before : Db
  tables : IsQueued before
  id : ℕ
  time : ℕ
  keys : keyed id job.storage_key before.jobs ≡ true
  changed : d ≡ update_job id (completed_row time) before

completing_IsQueued :
    (job : OutboxJob) (d : Db)
    → IsCompleting job d
    → IsQueued (Database.delete_photos (λ p. text_eq p.storage_key job.storage_key) d)
unfolding Database.delete_photos
completing_IsQueued job d c =
    subst (λ t. IsQueued (Database.delete_photos (λ p. text_eq p.storage_key job.storage_key) t))
      (sym c.changed)
      (record {
        photo_ids = unique_photos-delete _ c.before.photos c.tables.photo_ids;
        job_ids = unique_jobs-update _ _ c.before.jobs (λ j. refl) ∙ c.tables.job_ids;
        queued =
            queued_complete c.id c.time job.storage_key c.before.jobs c.before.photos c.keys
              c.tables.queued;
      })

pub succeeded-Keeps : (id : ℕ) → Keeps IsQueued (Jobs.capture_success id)
unfolding Jobs.capture_success
succeeded-Keeps id = Keeps-Leads _ (
    Leads-bind _ _ _ _ (Leads-query (λ d. find (has_id id) d.jobs)) λ found.
      Leads-bind _ _ _ _ (Leads-or_raise found _) λ job. Leads-bind _ _ _ _ (Leads-gets _) λ time.
        Leads-bind (λ _. IsCompleting job) _ _ _
          (Leads-execute _ _ λ d d' e q. record {
            before = d;
            tables = q.0.0;
            id = id;
            time = time;
            keys = find-keyed id d.jobs job q.0.0.job_ids (sym q.0.1 ∙ q.1);
            changed = sym (ok-injective e);
          })
          (λ _.
            Leads-bind (λ _. IsQueued) _ _ _
              (Leads-execute _ _
                (λ d d' e c. subst IsQueued (ok-injective e) (completing_IsQueued job d c)))
              (λ _. Leads-commit (λ d h. h))))
