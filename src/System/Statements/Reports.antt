-- ===== src/System/Statements/Reports.antt =====
-- An invariant of the tables under a report that a crane is gone, statement by statement.
use crane_tracker.Base.{ℕ, sym, subst, String, Bool, true, false, none}
use crane_tracker.Models.{Db, GoneReport}
use crane_tracker.Errors.{Error, sql_alchemy, integrity}
use crane_tracker.Env.{Env}
use crane_tracker.Database.{insert_gone_report}
use crane_tracker.Database.Frame
use crane_tracker.Exec.{execute}
use crane_tracker.Exec.Keeps.{
  Keeps, Recovers, keeps_rules, Keeps-bind, Keeps-query, Keeps-execute, Keeps-execute_ok,
}
use crane_tracker.Crane
use crane_tracker.System.Statements.Defs.{SurvivesReport}

module _ (env : Env) {P : Db → Type 0} (o : SurvivesReport P) where
  gone_report-Keeps : (r : GoneReport) → Keeps P (execute (insert_gone_report r))
  gone_report-Keeps r =
      Keeps-execute _ λ d d' e h.
        subst P (sym (Frame.gone_report_row r d d' e)) (o.gone_report_inserted r d d' e h)

  as_duplicate-Recovers : (id : ℕ) (e : Error) → Recovers P (Crane.as_duplicate id e)
  unfolding Crane.as_duplicate
  as_duplicate-Recovers id (sql_alchemy integrity) = search keeps_rules
  as_duplicate-Recovers id _ = search keeps_rules

  settle_status-Keeps : (id time : ℕ) (b : Bool) → Keeps P (Crane.settle_status id time b)
  unfolding Crane.settle_status
  settle_status-Keeps id time false = search keeps_rules
  settle_status-Keeps id time true =
      Keeps-bind _ _ (Keeps-execute_ok (Crane.mark_gone id time) (o.crane_gone id time))
        (λ _. Keeps-query _)

  pub gone_reported-Keeps :
      (id : ℕ) (ip : String) → Keeps P (Crane.report_crane_as_gone env id ip none)
  unfolding Crane.report_crane_as_gone
  gone_reported-Keeps id ip =
      search (keeps_rules, as_duplicate-Recovers, gone_report-Keeps, settle_status-Keeps) depth 15
