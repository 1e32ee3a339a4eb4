-- ===== src/System/Statements/Defs.antt =====
-- The statements that write to the tables, in the operations of app/services/ and app/worker/.
use crane_tracker.Base.{ℕ, ◌≡◌, String, Bool, List, ◌∷◌, update, delete}
use crane_tracker.Models.{
  Db, Crane, CraneStatus, CranePhoto, CranePhotoStatus, GoneReport, PhotoReport, OutboxJob,
  AdminToken,
}
use crane_tracker.Errors.{ok}
use crane_tracker.Settings.{Settings}
use crane_tracker.Database.{
  insert_crane, insert_photo, insert_gone_report, insert_job, insert_token, delete_crane_row,
  delete_photos,
}
use crane_tracker.Photo.Upload.{activate, mark_deleted}
use crane_tracker.Photo.Review.{insert_unless_reported}
use crane_tracker.Worker.Jobs
use crane_tracker.Crane
use crane_tracker.Env.{Env}
use crane_tracker.System.Respects.{IsDrawn}

-- What an invariant has to survive: every statement but the ones that the three declarations below are for.
pub record Survives (P : Db → Type 0) : Type 0 where
  pub crane_deleted : (id : ℕ) (d : Db) → P d → P (delete_crane_row id d)
  pub photo_activated : (id : ℕ) (d : Db) → P d → P (activate id d)
  pub photo_marked : (id : ℕ) (d : Db) → P d → P (mark_deleted id d)
  pub photos_deleted : (test : CranePhoto → Bool) (d : Db) → P d → P (delete_photos test d)
  pub photo_reported :
      (r : PhotoReport) (d d' : Db) → insert_unless_reported r d ≡ ok d' → P d → P d'
  pub job_inserted :
      (j : OutboxJob) (d d' : Db)
      → insert_job j d ≡ ok d'
      → P d
      → P (record d { jobs = j ∷ d.jobs })
  pub jobs_claimed :
      (jobs : List OutboxJob) (lease : ℕ) (d : Db)
      → P d
      → P (record d { jobs = update (Jobs.is_among jobs) (Jobs.claimed lease) d.jobs })
  pub job_failed :
      (s : Settings) (id time : ℕ) (text : String) (d : Db)
      → P d
      → P (Jobs.update_job id (Jobs.failed_row s time text) d)
  pub job_completed :
      (id time : ℕ) (d : Db) → P d → P (Jobs.update_job id (Jobs.completed_row time) d)
  pub token_inserted :
      (t : AdminToken) (d d' : Db)
      → insert_token t d ≡ ok d'
      → P d
      → P (record d { tokens = t ∷ d.tokens })
  pub tokens_deleted :
      (test : AdminToken → Bool) (d : Db) → P d → P (record d { tokens = delete test d.tokens })

-- The row of a new crane, and that of an upload, with an id that was drawn. Some invariants survive the
-- second only where its operation has looked first.
abbrev pub CraneInserted : Env → (Db → Type 0) → Type 0
CraneInserted env P =
    (c : Crane) (d d' : Db)
    → c.status ≡ CraneStatus.active
    → IsDrawn env c.id
    → insert_crane c d ≡ ok d'
    → P d
    → P (record d { cranes = c ∷ d.cranes })

abbrev pub PhotoInserted : Env → (Db → Type 0) → Type 0
PhotoInserted env P =
    (p : CranePhoto) (d d' : Db)
    → p.status ≡ CranePhotoStatus.pending_upload
    → IsDrawn env p.id
    → insert_photo p d ≡ ok d'
    → P d
    → P (record d { photos = p ∷ d.photos })

-- The two statements of a gone report, which an invariant that relates them meets together.
pub record SurvivesReport (P : Db → Type 0) : Type 0 where
  pub crane_gone : (id time : ℕ) (d : Db) → P d → P (Crane.mark_gone id time d)
  pub gone_report_inserted :
      (r : GoneReport) (d d' : Db)
      → insert_gone_report r d ≡ ok d'
      → P d
      → P (record d { gone_reports = r ∷ d.gone_reports })
