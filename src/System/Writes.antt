-- ===== src/System/Writes.antt =====
-- What the services and the worker do before the commit of a transaction commits nothing.
use crane_tracker.Base.{ℕ, String, Bool, true, false, Option, none, some, List, [], ◌∷◌}
use crane_tracker.Models.{CranePhoto}
use crane_tracker.Errors.{Error, resource_not_found, sql_alchemy, integrity}
use crane_tracker.Schemas.{CraneInput}
use crane_tracker.Env.{Env}
use crane_tracker.Exec.{Reply}
use crane_tracker.Exec.Atomic.{Quiet, quiet_rules, Quiet-bind}
use crane_tracker.Storage
use crane_tracker.Crane
use crane_tracker.Auth
use crane_tracker.Photo.Review
use crane_tracker.Photo.Upload
use crane_tracker.Photo.Upload.{UploadFile}
use crane_tracker.Worker.Jobs
use crane_tracker.Worker.Batch
use crane_tracker.Routes.Admin

module _ (env : Env) where
  pub connected-Quiet : (b : Bool) → Quiet (Storage.connected b)
  unfolding Storage.connected
  connected-Quiet true = search quiet_rules
  connected-Quiet false = search quiet_rules

  pub checked-Quiet : (text : String) (r : Reply) → Quiet (Storage.checked env text r)
  unfolding Storage.checked
  checked-Quiet text Reply.done = search quiet_rules
  checked-Quiet text Reply.refused = search quiet_rules
  checked-Quiet text (Reply.broken other) = search quiet_rules

  pub upload_photo-Quiet :
      (file : List ℕ) (key type : String) → Quiet (Storage.upload_photo env file key type)
  unfolding Storage.upload_photo Storage.get_s3_client
  upload_photo-Quiet file key type = search (quiet_rules, connected-Quiet, checked-Quiet) depth 12

  pub delete_photo-Quiet : (key : String) → Quiet (Storage.delete_photo env key)
  unfolding Storage.delete_photo Storage.get_s3_client
  delete_photo-Quiet key = search (quiet_rules, connected-Quiet, checked-Quiet) depth 12

  pub delete_objects-Quiet : (photos : List CranePhoto) → Quiet (Crane.delete_objects env photos)
  unfolding Crane.delete_objects
  delete_objects-Quiet [] = search quiet_rules
  delete_objects-Quiet (photo ∷ photos) =
      Quiet-bind _ _ (delete_photo-Quiet photo.storage_key) (λ _. delete_objects-Quiet photos)

  pub create_crane-Quiet : (input : CraneInput) (b : Bool) → Quiet (Crane.create_crane env input b)
  unfolding Crane.create_crane Crane.warn_of_duplicate
  create_crane-Quiet input b = search quiet_rules depth 12

  pub delete_crane-Quiet : (id : ℕ) → Quiet (Crane.delete_crane env id)
  unfolding Crane.delete_crane
  delete_crane-Quiet id = search (quiet_rules, delete_objects-Quiet) depth 12

  pub as_duplicate-Quiet : (id : ℕ) (e : Error) → Quiet (Crane.as_duplicate id e)
  unfolding Crane.as_duplicate
  as_duplicate-Quiet id (sql_alchemy integrity) = search quiet_rules
  as_duplicate-Quiet id _ = search quiet_rules

  pub settle_status-Quiet : (id time : ℕ) (b : Bool) → Quiet (Crane.settle_status id time b)
  unfolding Crane.settle_status
  settle_status-Quiet id time true = search quiet_rules
  settle_status-Quiet id time false = search quiet_rules

  pub report_crane_as_gone-Quiet :
      (id : ℕ) (ip : String) (threshold : Option ℕ)
      → Quiet (Crane.report_crane_as_gone env id ip threshold)
  unfolding Crane.report_crane_as_gone
  report_crane_as_gone-Quiet id ip threshold =
      search (quiet_rules, as_duplicate-Quiet, settle_status-Quiet) depth 14

  pub preupload-Quiet :
      (id : ℕ) (upload : UploadFile) → Quiet (Upload.preupload_crane_photo env id upload)
  unfolding Upload.preupload_crane_photo Upload.ensure_crane_photo_capacity Upload.insert_upload
  preupload-Quiet id upload = search quiet_rules depth 14

  pub finalize-Quiet : (id : ℕ) → Quiet (Upload.finalize_crane_photo id)
  unfolding Upload.finalize_crane_photo
  finalize-Quiet id = search quiet_rules depth 9

  pub create_delete_crane_job-Quiet :
      (photo : CranePhoto) → Quiet (Upload.create_delete_crane_job env photo)
  unfolding Upload.create_delete_crane_job Upload.create_task
  create_delete_crane_job-Quiet photo = search quiet_rules depth 9

  pub queue_if_found-Quiet : (photo : Option CranePhoto) → Quiet (Upload.queue_if_found env photo)
  unfolding Upload.queue_if_found
  queue_if_found-Quiet none = search quiet_rules
  queue_if_found-Quiet (some photo) = create_delete_crane_job-Quiet photo

  pub queue_all-Quiet : (photos : List CranePhoto) → Quiet (Batch.queue_all env photos)
  unfolding Batch.queue_all
  queue_all-Quiet [] = search quiet_rules
  queue_all-Quiet (photo ∷ photos) =
      Quiet-bind _ _ (create_delete_crane_job-Quiet photo) (λ _. queue_all-Quiet photos)

  pub abandon-Quiet : (id : ℕ) → Quiet (Upload.abandon_crane_photo_upload env (some id))
  unfolding Upload.abandon_crane_photo_upload
  abandon-Quiet id = search (quiet_rules, queue_if_found-Quiet) depth 9

  pub delete_crane_photo-Quiet :
      (crane_id id : ℕ) → Quiet (Upload.delete_crane_photo env crane_id id)
  unfolding Upload.delete_crane_photo
  delete_crane_photo-Quiet crane_id id = search (quiet_rules, create_delete_crane_job-Quiet) depth 9

  pub report_crane_photo-Quiet :
      (crane_id id : ℕ) (ip : String) → Quiet (Review.report_crane_photo env crane_id id ip)
  unfolding Review.report_crane_photo
  report_crane_photo-Quiet crane_id id ip = search quiet_rules depth 14

  pub admin_for-Quiet : (credentials : Option String) → Quiet (Auth.admin_for env credentials)
  unfolding Auth.admin_for Auth.get_admin
  admin_for-Quiet none = search quiet_rules
  admin_for-Quiet (some token) = search quiet_rules depth 9

  pub require_admin-Quiet :
      (credentials : Option String) → Quiet (Auth.require_admin env credentials)
  unfolding Auth.require_admin
  require_admin-Quiet credentials = search (quiet_rules, admin_for-Quiet)

  pub session_for-Quiet :
      (dummy : String) (user : Option _) → Quiet (Auth.session_for env dummy user)
  unfolding Auth.session_for Auth.open_session
  session_for-Quiet dummy none = search quiet_rules
  session_for-Quiet dummy (some user) = search quiet_rules depth 14

  pub sign_in-Quiet : (dummy u p : String) → Quiet (Auth.sign_in env dummy u p)
  unfolding Auth.sign_in
  sign_in-Quiet dummy u p = search (quiet_rules, session_for-Quiet)

  pub sign_out_of-Quiet : (credentials : Option String) → Quiet (Admin.sign_out_of env credentials)
  unfolding Admin.sign_out_of Auth.sign_out
  sign_out_of-Quiet none = search quiet_rules
  sign_out_of-Quiet (some token) = search quiet_rules

  pub give_up_on-Quiet : (e : Error) → Quiet (Jobs.give_up_on e)
  unfolding Jobs.give_up_on
  give_up_on-Quiet (resource_not_found _ _) = search quiet_rules
  give_up_on-Quiet (sql_alchemy _) = search quiet_rules
  give_up_on-Quiet _ = search quiet_rules

  pub zero_on_sql_error-Quiet : (e : Error) → Quiet (Batch.zero_on_sql_error e)
  unfolding Batch.zero_on_sql_error
  zero_on_sql_error-Quiet (sql_alchemy _) = search quiet_rules
  zero_on_sql_error-Quiet _ = search quiet_rules
