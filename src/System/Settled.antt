-- ===== src/System/Settled.antt =====
-- The status of a crane and the gone reports of it, under any sequence of transactions.
pub mod Rows
use crane_tracker.Base.{
  ℕ, ◌≡◌, refl, sym, ap, subst, ◌∙◌, String, Bool, true, false, none, List, ◌∷◌, arith, all,
}
use crane_tracker.Models.{Db, Crane, CraneStatus, GoneReport}
use crane_tracker.Errors.{ok, ok-injective, Error, sql_alchemy, integrity}
use crane_tracker.Env.{Env}
use crane_tracker.Database.{insert_crane, insert_gone_report, delete_crane_row, delete_photos}
use crane_tracker.Database.Frame.{gone_report_row}
use crane_tracker.Exec.{execute}
use crane_tracker.Exec.Keeps.{Keeps}
use crane_tracker.Exec.Leads.{
  Leads, Leads-pure, Leads-raise, Leads-query, Leads-or_raise, Leads-gets, Leads-draw, Leads-bind,
  Leads-execute, Leads-rescue, Leads-weaken, Keeps-Leads,
}
use crane_tracker.Crane
use crane_tracker.Crane.{is_gone_by}
use crane_tracker.Photo.Review.{insert_unless_reported-row}
use crane_tracker.System.Statements.{
  Survives, CraneInserted, PhotoInserted, Respects-but, upload_begun-Keeps,
}
use crane_tracker.System.References.{IsReferenced, survives, survives_report}
use crane_tracker.System.References
use crane_tracker.System.Defs.{Transaction, Conditions, System, run}
use crane_tracker.System.Induction.{run_keeps}
use crane_tracker.System.Handlers.{perform-Keeps}
use Rows.{
  is_settled, is_settled_but, no_reports, settled-delete, settled-report, settled-kept,
  settled-mark,
}

-- Rows refer to rows that are there, and each crane has the status that its reports call for.
pub record IsSettled (threshold : ℕ) (d : Db) : Type 0 where
  pub referenced : IsReferenced d
  pub settled : all (is_settled threshold d.gone_reports) d.cranes ≡ true

-- between a report and the status: the crane of the report may still have to be set to gone
record IsSettledBut (threshold id : ℕ) (d : Db) : Type 0 where
  referenced : IsReferenced d
  settled : all (is_settled_but threshold id d.gone_reports) d.cranes ≡ true

module _ (threshold : ℕ) where
  crane_inserted :
      (c : Crane) (d d' : Db)
      → c.status ≡ CraneStatus.active
      → insert_crane c d ≡ ok d'
      → IsSettled threshold d
      → IsSettled threshold (record d { cranes = c ∷ d.cranes })
  unfolding insert_crane
  crane_inserted c d d' new e h =
      let none_yet : Crane.reports_of c.id d ≡ 0 =
        no_reports c.id d.cranes d.gone_reports (ground arith) h.referenced.gone_reports in
      record {
        referenced = References.crane_inserted c d h.referenced;
        settled = ground (arith, none_yet, h.settled);
      }

  crane_deleted :
      (id : ℕ) (d : Db) → IsSettled threshold d → IsSettled threshold (delete_crane_row id d)
  unfolding delete_crane_row delete_photos
  crane_deleted id d h = record {
    referenced = survives.crane_deleted id d h.referenced;
    settled = settled-delete threshold id d.gone_reports d.cranes h.settled;
  }

  -- a write to the other tables
  elsewhere :
      (d d' : Db)
      → d'.cranes ≡ d.cranes
      → d'.gone_reports ≡ d.gone_reports
      → (IsReferenced d → IsReferenced d')
      → IsSettled threshold d
      → IsSettled threshold d'
  elsewhere d d' cranes reports k h = record {
    referenced = k h.referenced;
    settled = rw (cranes, reports) h.settled;
  }

  Survives-IsSettled : Survives (IsSettled threshold)
  unfolding delete_photos
  Survives-IsSettled = record {
    crane_deleted = crane_deleted;
    photo_activated = λ id d. elsewhere d _ refl refl (survives.photo_activated id d);
    photo_marked = λ id d. elsewhere d _ refl refl (survives.photo_marked id d);
    photos_deleted = λ test d. elsewhere d _ refl refl (survives.photos_deleted test d);
    photo_reported = λ r d d' e.
        let row = insert_unless_reported-row r d d' e in
        elsewhere d d' (ap (λ (x : Db). x.cranes) row) (ap (λ (x : Db). x.gone_reports) row)
          (survives.photo_reported r d d' e);
    job_inserted = λ j d d' e. elsewhere d _ refl refl (survives.job_inserted j d d' e);
    jobs_claimed = λ jobs lease d. elsewhere d _ refl refl (survives.jobs_claimed jobs lease d);
    job_failed = λ s id time text d. elsewhere d _ refl refl (survives.job_failed s id time text d);
    job_completed = λ id time d. elsewhere d _ refl refl (survives.job_completed id time d);
    token_inserted = λ t d d' e. elsewhere d _ refl refl (survives.token_inserted t d d' e);
    tokens_deleted = λ test d. elsewhere d _ refl refl (survives.tokens_deleted test d);
  }

  photo_inserted : (env : Env) → PhotoInserted env (IsSettled threshold)
  photo_inserted env p d d' new drawn e =
      elsewhere d _ refl refl (References.photo_inserted p d d' new e)

  -- The report is a row; the status of its crane is still to be set.
  report-Leads :
      (r : GoneReport)
      → Leads
          (IsSettled threshold)
          (IsSettled threshold)
          (λ _. IsSettledBut threshold r.crane_id)
          (execute (insert_gone_report r))
  report-Leads r = Leads-execute _ _ λ d d' e h.
      subst (IsSettledBut threshold r.crane_id) (sym (gone_report_row r d d' e)) (record {
        referenced = survives_report.gone_report_inserted r d d' e h.referenced;
        settled = settled-report threshold r d.gone_reports d.cranes h.settled;
      })

  as_duplicate-Leads :
      (id : ℕ) (e : Error)
      → Leads
          (IsSettled threshold)
          (λ _. Unit {0})
          (λ _. IsSettledBut threshold id)
          (Crane.as_duplicate id e)
  unfolding Crane.as_duplicate
  as_duplicate-Leads id (sql_alchemy integrity) = Leads-raise _ _
  as_duplicate-Leads id _ = Leads-raise _ _

  -- The status is set exactly when the count asks for it.
  settle_status-Leads :
      (id time n : ℕ) (b : Bool)
      → is_gone_by threshold n ≡ b
      → Leads
          (IsSettled threshold)
          (λ d. IsSettledBut threshold id d × (n ≡ Crane.reports_of id d))
          (λ _. IsSettled threshold)
          (Crane.settle_status id time b)
  unfolding Crane.settle_status
  settle_status-Leads id time n false few = Leads-pure _ _ λ d q. record {
    referenced = q.0.referenced;
    settled =
        settled-kept threshold id d.gone_reports d.cranes
          (ap (is_gone_by threshold) (sym q.1) ∙ few) q.0.settled;
  }
  settle_status-Leads id time n true enough =
      Leads-bind (λ _. IsSettled threshold) _ _ _
        (Leads-execute _ _ λ d d' e q. subst (IsSettled threshold) (ok-injective e) (record {
          referenced = survives_report.crane_gone id time d q.0.referenced;
          settled =
              settled-mark threshold id time d.gone_reports d.cranes
                (ap (is_gone_by threshold) (sym q.1) ∙ enough) q.0.settled;
        }))
        (λ _. Leads-weaken _ _ _ (Leads-query _) (λ _ d q. q.0))

module _ (env : Env) where
  gone_reported-Keeps :
      (id : ℕ) (ip : String)
      → Keeps
          (IsSettled env.settings.gone_report_threshold)
          (Crane.report_crane_as_gone env id ip none)
  unfolding Crane.report_crane_as_gone
  gone_reported-Keeps id ip =
      let threshold = env.settings.gone_report_threshold in
      let P = IsSettled threshold in
      Keeps-Leads _ (
        Leads-bind (λ _. P) _ _ _ (Leads-weaken _ _ _ (Leads-query _) (λ _ d q. q.0))
          λ found.
            Leads-bind (λ _. P) _ _ _ (Leads-weaken _ _ _ (Leads-or_raise found _) (λ _ d q. q.0))
              λ _.
                Leads-bind (λ _. P) _ _ _ (Leads-draw _)
                  λ report_id.
                    Leads-bind (λ _. P) _ _ _ (Leads-gets _)
                      λ time.
                        Leads-bind (λ _. IsSettledBut threshold id) _ _ _
                          (Leads-rescue _ _ _ (report-Leads threshold _)
                            (as_duplicate-Leads threshold id))
                          λ _.
                            Leads-bind _ _ _ _ (Leads-query (Crane.reports_of id))
                              λ n. settle_status-Leads threshold id time n _ refl)

-- If rows refer to rows that are there and each crane is gone exactly when it has at least one gone
-- report and as many as the threshold of the settings, then so it is after any sequence of
-- transactions.
pub run-IsSettled :
    (env : Env) (schedule : List (Transaction × Conditions)) (s : System)
    → IsSettled env.settings.gone_report_threshold s.tables
    → IsSettled env.settings.gone_report_threshold (run env schedule s).tables
run-IsSettled env = run_keeps env (
    perform-Keeps env (
      Respects-but env (Survives-IsSettled _) (λ c d d' new drawn. crane_inserted _ c d d' new)
        (gone_reported-Keeps env) (upload_begun-Keeps env (photo_inserted _ env))))
