-- ===== src/Crane/Reports.antt =====
-- `report_crane_as_gone` of app/services/crane.py: the count of reports and the threshold.
use crane_tracker.Base.{
  ℕ, suc, ◌≡◌, String, true, Option, some, [], ◌∷◌, ◌==◌, arith, if◌then◌else◌, leb, find, update,
}
use crane_tracker.Models.{Crane, GoneReport}
use crane_tracker.Errors.{ok, err, duplicate_gone_report}
use crane_tracker.Env.{Env}
use crane_tracker.Database.{insert_gone_report, already_gone}
use crane_tracker.Exec.{World, now, query, execute, draw, rescue, ◌>>=◌}
use crane_tracker.Crane.{
  report_crane_as_gone, settle_status, as_duplicate, or_default, reports_of, set_gone, hash_ip,
}

-- the row of a report
abbrev pub report_row : Env → World → ℕ → String → GoneReport
report_row env w crane_id client_ip = record {
  id = env.uuid7 w.drawn;
  crane_id = crane_id;
  reporter_ip_hash = hash_ip env client_ip;
  added_at = now w;
}

-- If a report is accepted, then it is the one new row, and the crane is set to gone exactly when the
-- reports of it, with this one, reach the threshold; no other crane changes.
pub report_crane_as_gone_ok :
    (env : Env) (crane_id : ℕ) (client_ip : String) (threshold : Option ℕ) (w w' : World)
    → report_crane_as_gone env crane_id client_ip threshold w ≡ (ok tt, w')
    → (w'.working.gone_reports ≡ report_row env w crane_id client_ip ∷ w.working.gone_reports)
      × (w'.working.cranes ≡ (
          if leb
            (or_default threshold env.settings.gone_report_threshold)
            (suc (reports_of crane_id w.working))
          then update (λ c. c.id == crane_id) (set_gone (now w)) w.working.cranes
          else w.working.cranes))
unfolding report_crane_as_gone settle_status as_duplicate ◌>>=◌ query execute draw rescue
    insert_gone_report
report_crane_as_gone_ok env crane_id client_ip threshold w w' h = ground arith

-- Where the database answers and the crane is there, a second report of a crane by the same address is
-- refused as a duplicate and changes no table.
pub report_crane_as_gone_twice :
    (env : Env) (crane_id : ℕ) (client_ip : String) (threshold : Option ℕ) (w : World) (c : Crane)
    → w.faults ≡ []
    → find (λ r. r.id == crane_id) w.working.cranes ≡ some c
    → already_gone (report_row env w crane_id client_ip) w.working ≡ true
    → ((report_crane_as_gone env crane_id client_ip threshold w).0
        ≡ err (duplicate_gone_report crane_id))
      × ((report_crane_as_gone env crane_id client_ip threshold w).1.working ≡ w.working)
unfolding report_crane_as_gone settle_status as_duplicate ◌>>=◌ query execute draw rescue
    insert_gone_report
report_crane_as_gone_twice env crane_id client_ip threshold w c calm found again = ground arith
