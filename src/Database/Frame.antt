-- ===== src/Database/Frame.antt =====
-- An INSERT changes its own table alone.
use crane_tracker.Base.{◌≡◌, arith, ◌∷◌}
use crane_tracker.Models.{Db, Crane, CranePhoto, GoneReport, PhotoReport, OutboxJob, AdminToken}
use crane_tracker.Errors.{ok}
use crane_tracker.Database.{
  insert_crane, insert_photo, insert_gone_report, insert_photo_report, insert_job, insert_token,
}

pub crane_row :
    (r : Crane) (d d' : Db) → insert_crane r d ≡ ok d' → d' ≡ record d { cranes = r ∷ d.cranes }
unfolding insert_crane
crane_row r d d' e = ground arith

pub photo_row :
    (r : CranePhoto) (d d' : Db)
    → insert_photo r d ≡ ok d'
    → d' ≡ record d { photos = r ∷ d.photos }
unfolding insert_photo
photo_row r d d' e = ground arith

pub gone_report_row :
    (r : GoneReport) (d d' : Db)
    → insert_gone_report r d ≡ ok d'
    → d' ≡ record d { gone_reports = r ∷ d.gone_reports }
unfolding insert_gone_report
gone_report_row r d d' e = ground arith

pub photo_report_row :
    (r : PhotoReport) (d d' : Db)
    → insert_photo_report r d ≡ ok d'
    → d' ≡ record d { photo_reports = r ∷ d.photo_reports }
unfolding insert_photo_report
photo_report_row r d d' e = ground arith

pub job_row :
    (r : OutboxJob) (d d' : Db) → insert_job r d ≡ ok d' → d' ≡ record d { jobs = r ∷ d.jobs }
unfolding insert_job
job_row r d d' e = ground arith

pub token_row :
    (r : AdminToken) (d d' : Db)
    → insert_token r d ≡ ok d'
    → d' ≡ record d { tokens = r ∷ d.tokens }
unfolding insert_token
token_row r d d' e = ground arith
