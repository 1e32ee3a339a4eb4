-- ===== src/System/Outbox/Uploads.antt =====
-- The reaper, the upload and the deletion of a crane keep the marked photos queued.
use crane_tracker.Base.{
  ℕ, ◌≡◌, sym, subst, ◌∙◌, Bool, true, ◌∷◌, ◌&&◌, arith, all, not, all-delete, all-take,
  all-order_by, all-select, order_by, select, ascending,
}
use crane_tracker.Models.{Db, CranePhoto}
use crane_tracker.Errors.{ok, Error, sql_alchemy}
use crane_tracker.Env.{Env}
use crane_tracker.Database
use crane_tracker.Database.Frame.{photo_row}
use crane_tracker.Exec.{modify, execute}
use crane_tracker.Exec.Keeps.{
  Keeps, Recovers, keeps_rules, Keeps-modify, Keeps-execute, Keeps-rescue,
}
use crane_tracker.Exec.Leads.{
  Leads-pure, Leads-query, Leads-gets, Leads-bind, Leads-commit, Leads-given, Keeps-Leads,
}
use crane_tracker.Photo.Upload.{
  activate, finalize_crane_photo, preupload_crane_photo, insert_upload, pending_photo, UploadFile,
  ensure_crane_photo_capacity,
}
use crane_tracker.Photo.Image.{PreparedImage}
use crane_tracker.Worker.Batch
use crane_tracker.Worker.Batch.{expired_uploads, is_expired_upload}
use crane_tracker.System.Outbox.Rows.{
  IsQueued, agrees, unique-agrees, unique_photos, unique_photos-delete,
}
use crane_tracker.System.Outbox.Complete.{unique_photos-activate, queued-activate}
use crane_tracker.System.Outbox.Writes.{queue_all-Leads}

-- The photos that the reaper selects are rows of the table.
expired_agree :
    (n window time : ℕ) (locked : ℕ → Bool) (d : Db)
    → IsQueued d
    → all (agrees d.photos) (expired_uploads n window time locked d) ≡ true
unfolding expired_uploads
expired_agree n window time locked d h =
    let before : CranePhoto → CranePhoto → Bool = ascending (λ p. p.added_at) in
    let test : CranePhoto → Bool = λ p. is_expired_upload window time p && not (locked p.id) in
    all-take (agrees d.photos) n (order_by before (select test d.photos)) (
      all-order_by before (agrees d.photos) (select test d.photos)
      ∙ all-select test (agrees d.photos) d.photos (unique-agrees d.photos h.photo_ids))

reap-Keeps : (env : Env) → Keeps IsQueued (Batch.reap env)
unfolding Batch.reap
reap-Keeps env = Keeps-Leads _ (
    Leads-bind _ _ _ _ (Leads-gets _) λ time. Leads-bind _ _ _ _ (Leads-gets _) λ locked.
      Leads-bind _ _ _ _ (Leads-query (expired_uploads _ _ time locked)) λ photos.
        Leads-bind (λ _. IsQueued) _ _ _
          (Leads-given _ _ (queue_all-Leads env photos)
            λ d q. record { tables = q.0; agreed = rw q.1 (expired_agree _ _ time locked d q.0) })
          (λ _.
            Leads-bind (λ _. IsQueued) _ _ _ (Leads-commit (λ d h. h))
              (λ _. Leads-pure _ _ (λ d h. h))))

zero_on_sql_error-Recovers : (e : Error) → Recovers IsQueued (Batch.zero_on_sql_error e)
unfolding Batch.zero_on_sql_error
zero_on_sql_error-Recovers (sql_alchemy _) = search keeps_rules
zero_on_sql_error-Recovers _ = search keeps_rules

pub reaped-Keeps : (env : Env) → Keeps IsQueued (Batch.run_reap_crane_photos env)
unfolding Batch.run_reap_crane_photos
reaped-Keeps env = Keeps-rescue _ _ (reap-Keeps env) zero_on_sql_error-Recovers

activate-Keeps : (id : ℕ) → Keeps IsQueued (modify (activate id))
activate-Keeps id = Keeps-modify _ λ d h. record {
  photo_ids = unique_photos-activate id d.photos ∙ h.photo_ids;
  job_ids = h.job_ids;
  queued = queued-activate d.jobs id d.photos h.queued;
}

pub finalized-Keeps : (id : ℕ) → Keeps IsQueued (finalize_crane_photo id)
unfolding finalize_crane_photo
finalized-Keeps id = search (keeps_rules, activate-Keeps) depth 9

pub insert_photo_new :
    (p : CranePhoto) (d d' : Db)
    → Database.insert_photo p d ≡ ok d'
    → unique_photos (p ∷ d.photos) ≡ unique_photos d.photos
unfolding Database.insert_photo
insert_photo_new p d d' e = ground arith

pending_photo-Keeps :
    (env : Env) (id : ℕ) (upload : UploadFile) (image : PreparedImage) (photo_id time : ℕ)
    → Keeps IsQueued
        (execute (Database.insert_photo (pending_photo env id upload image photo_id time)))
pending_photo-Keeps env id upload image photo_id time =
    let row : CranePhoto = pending_photo env id upload image photo_id time in
    Keeps-execute (Database.insert_photo row) λ d d' e h.
      subst IsQueued (sym (photo_row row d d' e)) (record {
        photo_ids = insert_photo_new row d d' e ∙ h.photo_ids;
        job_ids = h.job_ids;
        queued = h.queued;
      })

ensure-Keeps : (id : ℕ) → Keeps IsQueued (ensure_crane_photo_capacity id)
unfolding ensure_crane_photo_capacity
ensure-Keeps id = search keeps_rules depth 12

pub upload_begun-Keeps :
    (env : Env) (id : ℕ) (upload : UploadFile)
    → Keeps IsQueued (preupload_crane_photo env id upload)
unfolding preupload_crane_photo insert_upload
upload_begun-Keeps env id upload =
    search (keeps_rules, ensure-Keeps, pending_photo-Keeps env id upload) depth 15

pub crane_deleted-keeps : (id : ℕ) (d : Db) → IsQueued d → IsQueued (Database.delete_crane_row id d)
unfolding Database.delete_crane_row
crane_deleted-keeps id d h = record {
  photo_ids = unique_photos-delete _ d.photos h.photo_ids;
  job_ids = h.job_ids;
  queued = all-delete _ _ d.photos h.queued;
}
