-- ===== src/System/Outbox.antt =====
-- Photos marked for deletion and the jobs that remove their objects, under any schedule.
pub mod Rows
pub mod Complete
mod Writes
mod Jobs
mod Uploads
use crane_tracker.Base.{◌≡◌, List}
use crane_tracker.Models.{Db}
use crane_tracker.Env.{Env}
use crane_tracker.System.Defs.{Transaction, Conditions, System, run}
use crane_tracker.System.Induction.{run_keeps}
use crane_tracker.System.Handlers.{perform-Keeps}
use crane_tracker.System.Respects.{Respects}
use crane_tracker.System.Others.{
  crane_created-keeps, gone_reported-Keeps, photo_reported-Keeps, session_opened-Keeps,
  signed_out-Keeps,
}
use Rows.{IsQueued}
use Writes.{abandoned-Keeps, photo_deleted-Keeps}
use Jobs.{claimed-Keeps, failed-Keeps, succeeded-Keeps}
use Uploads.{reaped-Keeps, finalized-Keeps, upload_begun-Keeps, crane_deleted-keeps}

frame : (d d' : Db) → d'.photos ≡ d.photos → d'.jobs ≡ d.jobs → IsQueued d → IsQueued d'
frame d d' photos jobs h = record {
  photo_ids = rw photos h.photo_ids;
  job_ids = rw jobs h.job_ids;
  queued = rw (photos, jobs) h.queued;
}

pub respects : (env : Env) → Respects env IsQueued
respects env = record {
  crane_created = crane_created-keeps env frame;
  crane_deleted = crane_deleted-keeps;
  gone_reported = gone_reported-Keeps env frame;
  upload_begun = upload_begun-Keeps env;
  finalized = finalized-Keeps;
  abandoned = abandoned-Keeps env;
  photo_deleted = photo_deleted-Keeps env;
  photo_reported = photo_reported-Keeps env frame;
  session_opened = session_opened-Keeps env frame;
  signed_out = signed_out-Keeps env frame;
  claimed = claimed-Keeps env;
  failed = failed-Keeps env;
  succeeded = succeeded-Keeps;
  reaped = reaped-Keeps env;
}

-- If the ids of the photos and of the jobs are distinct and every photo that is marked for deletion
-- has a job of its storage key that is not completed, then so it is after any sequence of
-- transactions, whichever statements fail, whichever rows are locked, and whatever R2 answers.
pub run-IsQueued :
    (env : Env) (schedule : List (Transaction × Conditions)) (s : System)
    → IsQueued s.tables
    → IsQueued (run env schedule s).tables
run-IsQueued env = run_keeps env (perform-Keeps env (respects env))
