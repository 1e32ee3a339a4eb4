-- ===== src/System/Outbox/Writes.antt =====
-- Every write of a service keeps the marked photos queued.
use crane_tracker.Base.{
  ℕ, ◌≡◌, refl, sym, subst, ◌∙◌, Bool, true, Option, none, some, List, [], ◌∷◌, arith, all, find,
}
use crane_tracker.Models.{Db, CranePhoto, CranePhotoStatus, OutboxJob, JobOperation}
use crane_tracker.Errors.{ok}
use crane_tracker.Env.{Env}
use crane_tracker.Database
use crane_tracker.Database.Frame.{job_row}
use crane_tracker.Exec.{execute}
use crane_tracker.Exec.Keeps.{Keeps, keeps_rules}
use crane_tracker.Exec.Leads.{
  Leads, Leads-pure, Leads-query, Leads-or_raise, Leads-gets, Leads-draw, Leads-bind, Leads-modify,
  Leads-execute, Leads-weaken, Leads-given, Keeps-Leads,
}
use crane_tracker.Photo.Upload.{
  create_task, create_delete_crane_job, queue_if_found, mark_deleted, new_job, is_pending_upload,
  is_active_photo, abandon_crane_photo_upload, delete_crane_photo,
}
use crane_tracker.Worker.Batch
use crane_tracker.System.Outbox.Rows
use crane_tracker.System.Outbox.Rows.{
  IsQueued, agrees, is_queued, unique_photos, find-agrees, unique-agrees, all-agrees_mark,
  unique_photos-mark, queued-mark, queued_mono, open-update, unique_jobs-update,
  unique_photos-delete,
}

-- What a transaction that is to mark these photos has read: rows with their ids have their keys.
pub record IsReady (ps : List CranePhoto) (d : Db) : Type 0 where
  pub tables : IsQueued d
  pub agreed : all (agrees d.photos) ps ≡ true

-- The same while the first of them is marked and its job not yet inserted.
record IsMarked (p : CranePhoto) (ps : List CranePhoto) (d : Db) : Type 0 where
  before : Db
  ready : IsReady (p ∷ ps) before
  marked : d ≡ mark_deleted p.id before

insert_job_new :
    (j : OutboxJob) (d d' : Db)
    → Database.insert_job j d ≡ ok d'
    → Rows.unique_jobs (j ∷ d.jobs) ≡ Rows.unique_jobs d.jobs
unfolding Database.insert_job
insert_job_new j d d' e = ground arith

mark_IsReady :
    (p : CranePhoto) (ps : List CranePhoto) (id time : ℕ) (d d' : Db)
    → Database.insert_job (new_job JobOperation.delete p.storage_key id time) (mark_deleted p.id d)
      ≡ ok d'
    → IsReady (p ∷ ps) d
    → IsReady ps d'
mark_IsReady p ps id time d d' e r =
    let job = new_job JobOperation.delete p.storage_key id time in
    let status = CranePhotoStatus.pending_delete in
    subst (IsReady ps) (sym (job_row job (mark_deleted p.id d) d' e)) (record {
      tables = record {
        photo_ids = unique_photos-mark p.id status d.photos ∙ r.tables.photo_ids;
        job_ids = insert_job_new job (mark_deleted p.id d) d' e ∙ r.tables.job_ids;
        queued = queued-mark d.jobs p id time d.photos (ground (arith, r.agreed)) r.tables.queued;
      };
      agreed = all-agrees_mark p.id status d.photos ps ∙ ground (arith, r.agreed);
    })

module _ (env : Env) where
  insert_job-Leads :
      (p : CranePhoto) (ps : List CranePhoto) (id time : ℕ)
      → Leads IsQueued
          (IsMarked p ps)
          (λ _. IsReady ps)
          (execute (Database.insert_job (new_job JobOperation.delete p.storage_key id time)))
  insert_job-Leads p ps id time = Leads-execute (IsReady ps) _ λ d d' e m.
      mark_IsReady p ps id time m.before d'
        (subst
          (λ t. Database.insert_job (new_job JobOperation.delete p.storage_key id time) t ≡ ok d')
          m.marked e)
        m.ready

  create_delete_crane_job-Leads :
      (p : CranePhoto) (ps : List CranePhoto)
      → Leads IsQueued (IsReady (p ∷ ps)) (λ _. IsReady ps) (create_delete_crane_job env p)
  unfolding create_delete_crane_job create_task
  create_delete_crane_job-Leads p ps =
      Leads-bind (λ _. IsMarked p ps) _ _ _
        (Leads-modify _ _ (λ d r. record { before = d; ready = r; marked = refl }))
        (λ _.
          Leads-bind (λ _. IsMarked p ps) _ _ _ (Leads-draw _)
            (λ id.
              Leads-bind (λ _. IsMarked p ps) _ _ _ (Leads-gets _)
                (λ time. insert_job-Leads p ps id time)))

  pub queue_all-Leads :
      (ps : List CranePhoto) → Leads IsQueued (IsReady ps) (λ _. IsQueued) (Batch.queue_all env ps)
  unfolding Batch.queue_all
  queue_all-Leads [] = Leads-pure _ _ (λ d r. r.tables)
  queue_all-Leads (p ∷ ps) =
      Leads-bind (λ _. IsReady ps) _ _ _ (create_delete_crane_job-Leads p ps)
        (λ _. queue_all-Leads ps)

  -- a photo that a query has found
  found-IsReady :
      (test : CranePhoto → Bool) (p : CranePhoto) (d : Db)
      → IsQueued d
      → find test d.photos ≡ some p
      → IsReady (p ∷ []) d
  found-IsReady test p d h e = record {
    tables = h;
    agreed = ground (arith, find-agrees test d.photos p h.photo_ids e);
  }

  mark_one-Leads :
      (p : CranePhoto)
      → Leads IsQueued (IsReady (p ∷ [])) (λ _. IsQueued) (create_delete_crane_job env p)
  mark_one-Leads p = Leads-weaken _ _ _ (create_delete_crane_job-Leads p []) (λ _ d r. r.tables)

  queue_if_found-Leads :
      (test : CranePhoto → Bool) (o : Option CranePhoto)
      → Leads IsQueued
          (λ d. IsQueued d × (o ≡ find test d.photos))
          (λ _. IsQueued)
          (queue_if_found env o)
  unfolding queue_if_found
  queue_if_found-Leads test none = Leads-pure _ _ (λ d q. q.0)
  queue_if_found-Leads test (some p) =
      Leads-given _ _ (mark_one-Leads p) (λ d q. found-IsReady test p d q.0 (sym q.1))

  pub abandoned-Keeps : (id : Option ℕ) → Keeps IsQueued (abandon_crane_photo_upload env id)
  unfolding abandon_crane_photo_upload
  abandoned-Keeps none = search keeps_rules
  abandoned-Keeps (some id) = Keeps-Leads _ (
      Leads-bind _ _ _ _ (Leads-query (λ d. find (is_pending_upload id) d.photos))
        (queue_if_found-Leads (is_pending_upload id)))

  pub photo_deleted-Keeps : (c id : ℕ) → Keeps IsQueued (delete_crane_photo env c id)
  unfolding delete_crane_photo
  photo_deleted-Keeps c id = Keeps-Leads _ (
      Leads-bind _ _ _ _ (Leads-query (λ d. find (is_active_photo c id) d.photos)) λ found.
        Leads-bind _ _ _ _ (Leads-or_raise found _) λ p.
          Leads-given _ _ (mark_one-Leads p)
            (λ d q. found-IsReady (is_active_photo c id) p d q.0.0 (sym q.0.1 ∙ q.1)))
