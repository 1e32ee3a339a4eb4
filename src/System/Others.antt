-- ===== src/System/Others.antt =====
-- The operations that write neither photos nor jobs keep what is said of those two tables.
use crane_tracker.Base.{ℕ, ◌∷◌, ◌≡◌, refl, ap, String, none, arith}
use crane_tracker.Models.{Db, Crane, CraneStatus, PhotoReport, AdminUser, AdminToken}
use crane_tracker.Errors.{ok}
use crane_tracker.Env.{Env}
use crane_tracker.Database.{insert_crane, insert_photo_report, insert_token}
use crane_tracker.Database.Frame.{crane_row, token_row}
use crane_tracker.Exec.{execute}
use crane_tracker.Exec.Keeps.{Keeps, keeps_rules, Keeps-execute, Keeps-execute_ok}
use crane_tracker.Photo.Review.{report_crane_photo, insert_unless_reported}
use crane_tracker.Crane
use crane_tracker.Auth
use crane_tracker.System.Respects.{IsDrawn}
use crane_tracker.System.Statements
use crane_tracker.System.Statements.{SurvivesReport}

jobs-insert_unless_reported :
    (r : PhotoReport) (d d' : Db)
    → insert_unless_reported r d ≡ ok d'
    → (d'.photos ≡ d.photos) × (d'.jobs ≡ d.jobs)
unfolding insert_photo_report
jobs-insert_unless_reported r d d' e = ground arith

module _ (env : Env) {P : Db → Type 0}
    (frame : (d d' : Db) → d'.photos ≡ d.photos → d'.jobs ≡ d.jobs → P d → P d') where
  pub crane_created-keeps :
      (c : Crane) (d d' : Db)
      → c.status ≡ CraneStatus.active
      → IsDrawn env c.id
      → insert_crane c d ≡ ok d'
      → P d
      → P d'
  crane_created-keeps c d d' new drawn e =
      let row = crane_row c d d' e in frame d d' (ap (λ t. t.photos) row) (ap (λ t. t.jobs) row)

  survives_report : SurvivesReport P
  survives_report = record {
    crane_gone = λ id time d. frame d (Crane.mark_gone id time d) refl refl;
    gone_report_inserted =
        λ r d d' e. frame d (record d { gone_reports = r ∷ d.gone_reports }) refl refl;
  }

  pub gone_reported-Keeps :
      (id : ℕ) (ip : String) → Keeps P (Crane.report_crane_as_gone env id ip none)
  gone_reported-Keeps = Statements.gone_reported-Keeps env survives_report

  photo_report_row-Keeps : (r : PhotoReport) → Keeps P (execute (insert_unless_reported r))
  photo_report_row-Keeps r =
      Keeps-execute _ λ d d' e.
        let (photos, jobs) = jobs-insert_unless_reported r d d' e in frame d d' photos jobs

  pub photo_reported-Keeps : (c id : ℕ) (ip : String) → Keeps P (report_crane_photo env c id ip)
  unfolding report_crane_photo
  photo_reported-Keeps c id ip = search (keeps_rules, photo_report_row-Keeps) depth 15

  token_row-Keeps : (t : AdminToken) → Keeps P (execute (insert_token t))
  token_row-Keeps t = Keeps-execute _ λ d d' e.
      let row = token_row t d d' e in frame d d' (ap (λ t. t.photos) row) (ap (λ t. t.jobs) row)

  purge-Keeps : (time : ℕ) → Keeps P (execute (λ d. ok (Auth.purge time d)))
  purge-Keeps time = Keeps-execute_ok (Auth.purge time) (λ d. frame d (Auth.purge time d) refl refl)

  pub session_opened-Keeps :
      (dummy : String) (u : AdminUser) → Keeps P (Auth.open_session env dummy u)
  unfolding Auth.open_session
  session_opened-Keeps dummy u = search (keeps_rules, token_row-Keeps, purge-Keeps) depth 15

  pub signed_out-Keeps : (token : String) → Keeps P (Auth.sign_out env token)
  unfolding Auth.sign_out
  signed_out-Keeps token = Keeps-execute_ok _ (λ d. frame d _ refl refl)
