-- ===== src/System/Handlers.antt =====
-- The handlers and the worker keep what the services keep.
use crane_tracker.Base.{ℕ, refl, String, Bool, Option, none, some}
use crane_tracker.Models.{Db, AdminUser}
use crane_tracker.Errors.{ok, Error, resource_not_found, invalid_coordinate, sql_alchemy}
use crane_tracker.Schemas.{CraneInput}
use crane_tracker.Geocode.{GeocodeData}
use crane_tracker.Env.{Env}
use crane_tracker.Database.{insert_crane, delete_crane_row}
use crane_tracker.Exec.{Action, execute}
use crane_tracker.Exec.Keeps.{
  Keeps-draw_bind, Keeps, Recovers, keeps_rules, Keeps-execute, Keeps-execute_ok, Keeps-pure,
  Keeps-bind, Keeps-request,
}
use crane_tracker.Photo.Upload.{delete_crane_photo}
use crane_tracker.Worker.Jobs.{record_job_outcome}
use crane_tracker.Crane
use crane_tracker.Auth
use crane_tracker.Worker.Jobs
use crane_tracker.Photo.Upload
use crane_tracker.Routes.Cranes
use crane_tracker.Routes.Photos
use crane_tracker.Routes.Admin
use crane_tracker.System.Defs.{
  Transaction, create_crane, delete_crane, report_crane_as_gone, begin_upload, store_and_finalize,
  abandon, login, logout, claim, record_outcome, reap, perform,
}
use crane_tracker.System.Respects.{Respects}
use crane_tracker.System.Objects.{upload_photo-Keeps, delete_objects-Keeps}

module _ {P : Db → Type 0} where
  give_up_on-Recovers : (e : Error) → Recovers P (Jobs.give_up_on e)
  unfolding Jobs.give_up_on
  give_up_on-Recovers (resource_not_found _ _) = search keeps_rules
  give_up_on-Recovers (sql_alchemy _) = search keeps_rules
  give_up_on-Recovers _ = search keeps_rules

  as_unprocessable-Recovers :
      {A : Type 0} (e : Error) → Recovers P (Cranes.as_unprocessable {A = A} e)
  unfolding Cranes.as_unprocessable
  as_unprocessable-Recovers (invalid_coordinate _) = search keeps_rules
  as_unprocessable-Recovers _ = search keeps_rules

  validated-Keeps :
      {A : Type 0} (b : Bool) (m : Action A) → Keeps P m → Keeps P (Cranes.validated b m)
  unfolding Cranes.validated
  validated-Keeps b m km = search keeps_rules

module _ (env : Env) {P : Db → Type 0} (o : Respects env P) where
  crane_row-Keeps :
      (input : CraneInput) (place : GeocodeData) (k time : ℕ)
      → Keeps P (execute (insert_crane (Crane.new_crane input place (env.uuid7 k) time)))
  crane_row-Keeps input place k time = Keeps-execute (insert_crane _) λ d d' e.
      o.crane_created (Crane.new_crane input place (env.uuid7 k) time) d d' refl (k, refl) e

  create_crane-Keeps : (input : CraneInput) (b : Bool) → Keeps P (Crane.create_crane env input b)
  unfolding Crane.create_crane
  create_crane-Keeps input b = search (Keeps-draw_bind, keeps_rules, crane_row-Keeps) depth 12

  delete_crane_row-Keeps : (id : ℕ) → Keeps P (execute (λ d. ok (delete_crane_row id d)))
  delete_crane_row-Keeps id = Keeps-execute_ok (delete_crane_row id) (o.crane_deleted id)

  delete_crane-Keeps : (id : ℕ) → Keeps P (Crane.delete_crane env id)
  unfolding Crane.delete_crane
  delete_crane-Keeps id =
      search (keeps_rules, delete_objects-Keeps env, delete_crane_row-Keeps) depth 12

  require_admin-Keeps : (credentials : Option String) → Keeps P (Auth.require_admin env credentials)
  unfolding Auth.require_admin Auth.get_admin
  require_admin-Keeps none = search keeps_rules depth 9
  require_admin-Keeps (some token) = search keeps_rules depth 9

  session_for-Keeps :
      (dummy : String) (user : Option AdminUser) → Keeps P (Auth.session_for env dummy user)
  unfolding Auth.session_for
  session_for-Keeps dummy none = search keeps_rules
  session_for-Keeps dummy (some user) = search (keeps_rules, o.session_opened) depth 9

  sign_in-Keeps : (dummy u p : String) → Keeps P (Auth.sign_in env dummy u p)
  unfolding Auth.sign_in
  sign_in-Keeps dummy u p = search (keeps_rules, session_for-Keeps) depth 9

  sign_out_of-Keeps : (credentials : Option String) → Keeps P (Admin.sign_out_of env credentials)
  unfolding Admin.sign_out_of
  sign_out_of-Keeps none = search keeps_rules
  sign_out_of-Keeps (some token) = o.signed_out token

  gone_from-Keeps : (id : ℕ) (host : Option String) → Keeps P (Cranes.report_from env id host)
  unfolding Cranes.report_from
  gone_from-Keeps id none = search keeps_rules
  gone_from-Keeps id (some ip) = search (keeps_rules, o.gone_reported) depth 9

  finish_report-Keeps : (b : Bool) → Keeps P (Photos.finish_report env b)
  unfolding Photos.finish_report
  finish_report-Keeps b = search keeps_rules depth 9

  report_from-Keeps :
      (crane_id id : ℕ) (host : Option String) → Keeps P (Photos.report_from env crane_id id host)
  unfolding Photos.report_from
  report_from-Keeps crane_id id none = search keeps_rules
  report_from-Keeps crane_id id (some ip) =
      search (keeps_rules, o.photo_reported, finish_report-Keeps) depth 9

  capture-Keeps : (id : ℕ) (text : Option String) → Keeps P (Jobs.capture env id text)
  unfolding Jobs.capture
  capture-Keeps id none = o.succeeded id
  capture-Keeps id (some text) = o.failed id text

  pub record_job_outcome-Keeps :
      (id : ℕ) (text : Option String) → Keeps P (record_job_outcome env id text)
  unfolding record_job_outcome
  record_job_outcome-Keeps id text =
      search (keeps_rules, capture-Keeps, give_up_on-Recovers) depth 9

  -- Every transaction keeps what the services keep.
  pub perform-Keeps : (t : Transaction) → Keeps P (perform env t)
  unfolding perform
  perform-Keeps (create_crane input) =
      unfold Cranes.create_crane in
      search (keeps_rules, validated-Keeps, create_crane-Keeps) depth 12
  perform-Keeps (delete_crane id) = search (keeps_rules, delete_crane-Keeps) depth 9
  perform-Keeps (report_crane_as_gone id host) =
      unfold Cranes.report_crane_as_gone in search (keeps_rules, gone_from-Keeps) depth 9
  perform-Keeps (begin_upload id upload) =
      unfold Photos.begin_upload in search (keeps_rules, o.upload_begun) depth 12
  perform-Keeps (store_and_finalize photo file) =
      unfold Photos.store_and_finalize Upload.upload_crane_photo_to_storage in
      search (keeps_rules, upload_photo-Keeps env, o.finalized) depth 12
  perform-Keeps (abandon id) =
      unfold Photos.abandon_helper in search (keeps_rules, o.abandoned) depth 12
  perform-Keeps (Transaction.delete_crane_photo credentials crane_id id) =
      unfold Photos.delete_crane_photo in
      search (keeps_rules, require_admin-Keeps, o.photo_deleted) depth 12
  perform-Keeps (Transaction.report_crane_photo crane_id id host) =
      unfold Photos.report_crane_photo in search (keeps_rules, report_from-Keeps) depth 12
  perform-Keeps (login dummy username password) =
      unfold Admin.login in search (keeps_rules, sign_in-Keeps) depth 12
  perform-Keeps (logout credentials) =
      unfold Admin.logout in search (keeps_rules, require_admin-Keeps, sign_out_of-Keeps) depth 12
  perform-Keeps claim = Keeps-bind _ _ (Keeps-request _ o.claimed) (λ _. Keeps-pure _)
  perform-Keeps (record_outcome id text) = search (keeps_rules, record_job_outcome-Keeps) depth 9
  perform-Keeps reap = Keeps-bind _ _ (Keeps-request _ o.reaped) (λ _. Keeps-pure _)
