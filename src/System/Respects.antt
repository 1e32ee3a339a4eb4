-- ===== src/System/Respects.antt =====
-- What it takes for an invariant of the tables to survive every transaction: one obligation for
-- each operation of a service that writes. The handlers add no writes of their own.
use crane_tracker.Base.{ℕ, String, Option, none, ◌≡◌}
use crane_tracker.Models.{Db, Crane, CraneStatus, AdminUser, JobOperation}
use crane_tracker.Errors.{ok}
use crane_tracker.Env.{Env}
use crane_tracker.Database.{insert_crane, delete_crane_row}
use crane_tracker.Exec.Keeps.{Keeps}
use crane_tracker.Photo.Upload.{
  UploadFile, preupload_crane_photo, finalize_crane_photo, abandon_crane_photo_upload,
  delete_crane_photo,
}
use crane_tracker.Photo.Review.{report_crane_photo}
use crane_tracker.Worker.Jobs.{claim_jobs, capture_failure, capture_success}
use crane_tracker.Worker.Batch.{run_reap_crane_photos}
use crane_tracker.Crane
use crane_tracker.Auth

-- an id that the program draws
abbrev pub IsDrawn : Env → ℕ → Type 0
IsDrawn env id = (k : ℕ) × (id ≡ env.uuid7 k)

pub record Respects (env : Env) (P : Db → Type 0) : Type 0 where
  pub crane_created :
      (c : Crane) (d d' : Db)
      → c.status ≡ CraneStatus.active
      → IsDrawn env c.id
      → insert_crane c d ≡ ok d'
      → P d
      → P d'
  pub crane_deleted : (id : ℕ) (d : Db) → P d → P (delete_crane_row id d)
  pub gone_reported : (id : ℕ) (ip : String) → Keeps P (Crane.report_crane_as_gone env id ip none)
  pub upload_begun : (id : ℕ) (upload : UploadFile) → Keeps P (preupload_crane_photo env id upload)
  pub finalized : (id : ℕ) → Keeps P (finalize_crane_photo id)
  pub abandoned : (id : Option ℕ) → Keeps P (abandon_crane_photo_upload env id)
  pub photo_deleted : (crane_id id : ℕ) → Keeps P (delete_crane_photo env crane_id id)
  pub photo_reported :
      (crane_id id : ℕ) (ip : String) → Keeps P (report_crane_photo env crane_id id ip)
  pub session_opened : (dummy : String) (u : AdminUser) → Keeps P (Auth.open_session env dummy u)
  pub signed_out : (token : String) → Keeps P (Auth.sign_out env token)
  pub claimed : Keeps P (claim_jobs env JobOperation.delete env.settings.job_batch_size)
  pub failed : (id : ℕ) (text : String) → Keeps P (capture_failure env id text)
  pub succeeded : (id : ℕ) → Keeps P (capture_success id)
  pub reaped : Keeps P (run_reap_crane_photos env)
