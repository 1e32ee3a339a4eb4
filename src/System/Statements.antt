-- ===== src/System/Statements.antt =====
-- An invariant and each statement that writes to the tables, in the operations of the services.
mod Defs
mod Photos
mod Outcomes
mod Reports
use crane_tracker.Base.{ℕ, ◌≡◌, sym, subst, String, none}
use crane_tracker.Models.{Db, Crane, CraneStatus}
use crane_tracker.Errors.{ok}
use crane_tracker.Env.{Env}
use crane_tracker.Database.{insert_crane}
use crane_tracker.Database.Frame
use crane_tracker.Exec.Keeps.{Keeps}
use crane_tracker.Crane
use crane_tracker.Photo.Upload.{UploadFile, preupload_crane_photo}
use crane_tracker.System.Respects.{Respects, IsDrawn}
use Photos.{
  upload_begun-Keeps, finalized-Keeps, abandoned-Keeps, photo_deleted-Keeps, photo_reported-Keeps,
  reaped-Keeps,
}
use Outcomes.{session_opened-Keeps, signed_out-Keeps, claimed-Keeps, failed-Keeps, succeeded-Keeps}
use Reports.{gone_reported-Keeps}
pub use Defs.{Survives, SurvivesReport, CraneInserted, PhotoInserted}
pub use Photos.{upload_begun-Keeps}
pub use Reports.{gone_reported-Keeps}

module _ (env : Env) {P : Db → Type 0} (o : Survives P) where
  crane_created-keeps :
      CraneInserted env P
      → (c : Crane) (d d' : Db) → c.status ≡ CraneStatus.active
      → IsDrawn env c.id
      → insert_crane c d ≡ ok d'
      → P d
      → P d'
  crane_created-keeps inserted c d d' new drawn e h =
      subst P (sym (Frame.crane_row c d d' e)) (inserted c d d' new drawn e h)

  -- What survives every other statement is kept by every operation, if a gone report and the first
  -- transaction of an upload keep it.
  pub Respects-but :
      CraneInserted env P
      → ((id : ℕ) (ip : String) → Keeps P (Crane.report_crane_as_gone env id ip none))
      → ((id : ℕ) (upload : UploadFile) → Keeps P (preupload_crane_photo env id upload))
      → Respects env P
  Respects-but crane_inserted gone_reported upload_begun = record {
    crane_created = crane_created-keeps crane_inserted;
    crane_deleted = o.crane_deleted;
    gone_reported = gone_reported;
    upload_begun = upload_begun;
    finalized = finalized-Keeps env o;
    abandoned = abandoned-Keeps env o;
    photo_deleted = photo_deleted-Keeps env o;
    photo_reported = photo_reported-Keeps env o;
    session_opened = session_opened-Keeps env o;
    signed_out = signed_out-Keeps env o;
    claimed = claimed-Keeps env o;
    failed = failed-Keeps env o;
    succeeded = succeeded-Keeps env o;
    reaped = reaped-Keeps env o;
  }

  -- The statements of these two may also be met one by one.
  pub Respects-Survives :
      CraneInserted env P → SurvivesReport P → PhotoInserted env P → Respects env P
  Respects-Survives crane_inserted r photo_inserted =
      Respects-but crane_inserted (gone_reported-Keeps env r)
        (upload_begun-Keeps env photo_inserted)
