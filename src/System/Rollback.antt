-- ===== src/System/Rollback.antt =====
-- The handlers, the deletion of a crane and the transactions of the worker, when they raise.
use crane_tracker.Base.{ℕ, String, Bool, Option, none, some, ◌≡◌}
use crane_tracker.Models.{JobOperation, Db}
use crane_tracker.Errors.{Result, ok, err, Error}
use crane_tracker.Schemas.{CraneInput}
use crane_tracker.Env.{Env}
use crane_tracker.Exec.{◌>>◌, ◌>>=◌, Action, pure, World, commit}
use crane_tracker.Exec.Atomic.{
  Atomic, Undone, quiet_rules, atomic_rules, Atomic-Quiet, Atomic-return, Atomic-request,
}
use crane_tracker.Crane
use crane_tracker.Photo.Upload
use crane_tracker.Worker.Jobs
use crane_tracker.Worker.Batch
use crane_tracker.Routes.Cranes
use crane_tracker.Routes.Photos
use crane_tracker.Routes.Admin
use crane_tracker.System.Defs.{
  Transaction, create_crane, delete_crane, report_crane_as_gone, begin_upload, store_and_finalize,
  abandon, login, logout, claim, record_outcome, reap, perform,
}
use crane_tracker.System.Defs.{perform}
use crane_tracker.System.Writes.{
  upload_photo-Quiet, create_crane-Quiet, delete_crane-Quiet, report_crane_as_gone-Quiet,
  preupload-Quiet, finalize-Quiet, queue_all-Quiet, abandon-Quiet, delete_crane_photo-Quiet,
  report_crane_photo-Quiet, require_admin-Quiet, sign_in-Quiet, sign_out_of-Quiet, give_up_on-Quiet,
  zero_on_sql_error-Quiet,
}

module _ (env : Env) where
  validated-Atomic :
      {A : Type 0} (b : Bool) (m : Action A) → Atomic m → Atomic (Cranes.validated b m)
  unfolding Cranes.validated
  validated-Atomic b m am = search atomic_rules

  created-Atomic :
      (input : CraneInput) (b : Bool)
      → Atomic (do crane ← Crane.create_crane env input b; commit; pure crane)
  created-Atomic input b = search (atomic_rules, create_crane-Quiet) depth 9

  gone_from-Atomic : (id : ℕ) (host : Option String) → Atomic (Cranes.report_from env id host)
  unfolding Cranes.report_from
  gone_from-Atomic id none = search atomic_rules
  gone_from-Atomic id (some ip) = search (atomic_rules, report_crane_as_gone-Quiet) depth 9

  finish_report-Atomic : (b : Bool) → Atomic (Photos.finish_report env b)
  unfolding Photos.finish_report
  finish_report-Atomic b = search (atomic_rules, Atomic-Quiet) depth 9

  report_from-Atomic :
      (crane_id id : ℕ) (host : Option String) → Atomic (Photos.report_from env crane_id id host)
  unfolding Photos.report_from
  report_from-Atomic crane_id id none = search atomic_rules
  report_from-Atomic crane_id id (some ip) =
      search (atomic_rules, report_crane_photo-Quiet, finish_report-Atomic) depth 9

  capture-Atomic : (id : ℕ) (text : Option String) → Atomic (Jobs.capture env id text)
  unfolding Jobs.capture Jobs.capture_success Jobs.capture_failure Jobs.calculate_backoff
  capture-Atomic id none = search atomic_rules depth 14
  capture-Atomic id (some text) = search atomic_rules depth 14

  record_job_outcome-Atomic :
      (id : ℕ) (text : Option String) → Atomic (Jobs.record_job_outcome env id text)
  unfolding Jobs.record_job_outcome
  record_job_outcome-Atomic id text =
      search (atomic_rules, capture-Atomic, give_up_on-Quiet) depth 9

  claim_jobs-Atomic : (operation : JobOperation) (n : ℕ) → Atomic (Jobs.claim_jobs env operation n)
  unfolding Jobs.claim_jobs
  claim_jobs-Atomic operation n = search atomic_rules depth 14

  reap-Atomic : Atomic (Batch.run_reap_crane_photos env)
  unfolding Batch.run_reap_crane_photos Batch.reap
  reap-Atomic = search (atomic_rules, queue_all-Quiet, zero_on_sql_error-Quiet) depth 14

  perform-Atomic : (t : Transaction) → Atomic (perform env t)
  unfolding perform
  perform-Atomic (create_crane input) =
      unfold Cranes.create_crane in search (atomic_rules, validated-Atomic, created-Atomic) depth 12
  perform-Atomic (delete_crane id) = search (atomic_rules, delete_crane-Quiet) depth 9
  perform-Atomic (report_crane_as_gone id host) =
      unfold Cranes.report_crane_as_gone in search (atomic_rules, gone_from-Atomic) depth 9
  perform-Atomic (begin_upload id upload) =
      unfold Photos.begin_upload in search (atomic_rules, preupload-Quiet) depth 12
  perform-Atomic (store_and_finalize photo file) =
      unfold Photos.store_and_finalize Upload.upload_crane_photo_to_storage in
      search (atomic_rules, upload_photo-Quiet, finalize-Quiet) depth 12
  perform-Atomic (abandon id) =
      unfold Photos.abandon_helper in search (atomic_rules, quiet_rules, abandon-Quiet) depth 12
  perform-Atomic (Transaction.delete_crane_photo credentials crane_id id) =
      unfold Photos.delete_crane_photo in
      search (atomic_rules, require_admin-Quiet, delete_crane_photo-Quiet) depth 12
  perform-Atomic (Transaction.report_crane_photo crane_id id host) =
      unfold Photos.report_crane_photo in search (atomic_rules, report_from-Atomic) depth 12
  perform-Atomic (login dummy username password) =
      unfold Admin.login in search (atomic_rules, sign_in-Quiet) depth 12
  perform-Atomic (logout credentials) =
      unfold Admin.logout in search (atomic_rules, require_admin-Quiet, sign_out_of-Quiet) depth 12
  perform-Atomic claim = Atomic-return _ _ (Atomic-request _ (claim_jobs-Atomic _ _))
  perform-Atomic (record_outcome id text) = search (atomic_rules, record_job_outcome-Atomic) depth 9
  perform-Atomic reap = Atomic-return _ _ (Atomic-request _ reap-Atomic)

raised :
    {A : Type 0} (d : Db) (r : Result A × World) (e : Error) (w : World)
    → Undone d r
    → r ≡ (err e, w)
    → w.committed ≡ d
raised d (ok a, w') e w u h = cc
raised d (err e', w') e w u h = cc

-- A transaction that raises leaves the committed tables as they were.
pub perform_raises :
    (env : Env) (t : Transaction) (w w' : World) (e : Error)
    → perform env t w ≡ (err e, w')
    → w'.committed ≡ w.committed
perform_raises env t w w' e h =
    raised w.committed (perform env t w) e w' ((perform-Atomic env t).at w) h
