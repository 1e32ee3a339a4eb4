-- ===== src/System/Statements/Photos.antt =====
-- An invariant of the tables under the operations of app/services/photo.py and the reaper.
use crane_tracker.Base.{ℕ, refl, sym, subst, String, Option, none, some, List, [], ◌∷◌}
use crane_tracker.Models.{Db, CranePhoto, PhotoReport, OutboxJob}
use crane_tracker.Errors.{Error, sql_alchemy}
use crane_tracker.Env.{Env}
use crane_tracker.Database.{insert_photo, insert_job}
use crane_tracker.Database.Frame
use crane_tracker.Exec.{execute, modify}
use crane_tracker.Exec.Keeps.{
  Keeps, Recovers, keeps_rules, Keeps-bind, Keeps-draw_bind, Keeps-execute, Keeps-modify,
}
use crane_tracker.Photo.Image.{PreparedImage}
use crane_tracker.Photo.Upload.{
  UploadFile, activate, mark_deleted, pending_photo, create_task, create_delete_crane_job,
  queue_if_found, abandon_crane_photo_upload, delete_crane_photo, finalize_crane_photo,
  preupload_crane_photo, ensure_crane_photo_capacity, insert_upload,
}
use crane_tracker.Photo.Review.{report_crane_photo, insert_unless_reported}
use crane_tracker.Worker.Batch
use crane_tracker.System.Statements.Defs.{Survives, PhotoInserted}

ensure-Keeps : {P : Db → Type 0} (id : ℕ) → Keeps P (ensure_crane_photo_capacity id)
unfolding ensure_crane_photo_capacity
ensure-Keeps id = search keeps_rules depth 12

module _ (env : Env) {P : Db → Type 0} (inserted : PhotoInserted env P) where
  pending_photo-Keeps :
      (id : ℕ) (upload : UploadFile) (image : PreparedImage) (k time : ℕ)
      → Keeps P (execute (insert_photo (pending_photo env id upload image (env.uuid7 k) time)))
  pending_photo-Keeps id upload image k time =
      let row : CranePhoto = pending_photo env id upload image (env.uuid7 k) time in
      Keeps-execute (insert_photo row) λ d d' e h.
        subst P (sym (Frame.photo_row row d d' e)) (inserted row d d' refl (k, refl) e h)

  pub upload_begun-Keeps :
      (id : ℕ) (upload : UploadFile) → Keeps P (preupload_crane_photo env id upload)
  unfolding preupload_crane_photo insert_upload
  upload_begun-Keeps id upload =
      search (Keeps-draw_bind, keeps_rules, ensure-Keeps, pending_photo-Keeps id upload) depth 15

module _ (env : Env) {P : Db → Type 0} (o : Survives P) where
  activate-Keeps : (id : ℕ) → Keeps P (modify (activate id))
  activate-Keeps id = Keeps-modify _ (o.photo_activated id)

  pub finalized-Keeps : (id : ℕ) → Keeps P (finalize_crane_photo id)
  unfolding finalize_crane_photo
  finalized-Keeps id = search (keeps_rules, activate-Keeps) depth 9

  job-Keeps : (j : OutboxJob) → Keeps P (execute (insert_job j))
  job-Keeps j =
      Keeps-execute _ λ d d' e h. subst P (sym (Frame.job_row j d d' e)) (o.job_inserted j d d' e h)

  marked-Keeps : (id : ℕ) → Keeps P (modify (mark_deleted id))
  marked-Keeps id = Keeps-modify _ (o.photo_marked id)

  create_delete_crane_job-Keeps : (p : CranePhoto) → Keeps P (create_delete_crane_job env p)
  unfolding create_delete_crane_job create_task
  create_delete_crane_job-Keeps p = search (keeps_rules, job-Keeps, marked-Keeps) depth 12

  queue_if_found-Keeps : (p : Option CranePhoto) → Keeps P (queue_if_found env p)
  unfolding queue_if_found
  queue_if_found-Keeps none = search keeps_rules
  queue_if_found-Keeps (some p) = create_delete_crane_job-Keeps p

  pub abandoned-Keeps : (id : Option ℕ) → Keeps P (abandon_crane_photo_upload env id)
  unfolding abandon_crane_photo_upload
  abandoned-Keeps none = search keeps_rules
  abandoned-Keeps (some id) = search (keeps_rules, queue_if_found-Keeps) depth 9

  pub photo_deleted-Keeps : (c id : ℕ) → Keeps P (delete_crane_photo env c id)
  unfolding delete_crane_photo
  photo_deleted-Keeps c id = search (keeps_rules, create_delete_crane_job-Keeps) depth 9

  photo_report-Keeps : (r : PhotoReport) → Keeps P (execute (insert_unless_reported r))
  photo_report-Keeps r = Keeps-execute _ (o.photo_reported r)

  pub photo_reported-Keeps : (c id : ℕ) (ip : String) → Keeps P (report_crane_photo env c id ip)
  unfolding report_crane_photo
  photo_reported-Keeps c id ip = search (keeps_rules, photo_report-Keeps) depth 15

  queue_all-Keeps : (ps : List CranePhoto) → Keeps P (Batch.queue_all env ps)
  unfolding Batch.queue_all
  queue_all-Keeps [] = search keeps_rules
  queue_all-Keeps (p ∷ ps) =
      Keeps-bind _ _ (create_delete_crane_job-Keeps p) (λ _. queue_all-Keeps ps)

  zero_on_sql_error-Recovers : (e : Error) → Recovers P (Batch.zero_on_sql_error e)
  unfolding Batch.zero_on_sql_error
  zero_on_sql_error-Recovers (sql_alchemy _) = search keeps_rules
  zero_on_sql_error-Recovers _ = search keeps_rules

  pub reaped-Keeps : Keeps P (Batch.run_reap_crane_photos env)
  unfolding Batch.run_reap_crane_photos Batch.reap
  reaped-Keeps = search (keeps_rules, queue_all-Keeps, zero_on_sql_error-Recovers) depth 12
