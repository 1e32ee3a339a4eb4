-- ===== src/Tests/Whole.antt =====
-- The theorems on sequences of transactions.
use crane_tracker.Base.{ℕ, ◌≡◌, refl, arith, false, none, some, List, [], ◌∷◌}
use crane_tracker.Errors.{err, photo_storage}
use crane_tracker.Exec.{World, Reply}
use crane_tracker.System.{Transaction, Conditions, System, run, perform}
use crane_tracker.System.Capacity.{WithinCapacity, run-WithinCapacity}
use crane_tracker.System.Outbox.Rows.{IsQueued}
use crane_tracker.System.Outbox.{run-IsQueued}
use crane_tracker.System.Lifecycle.{Reaches, status_at, run-Reaches}
use crane_tracker.System.History.{SameTask, Never, run-SameTask}
use crane_tracker.System.History.Cranes.{StillFound, crane_at, run-SameCrane}
use crane_tracker.System.History.Rows.{Evolves}
use crane_tracker.System.References.{IsReferenced, run-IsReferenced}
use crane_tracker.System.Settled.{IsSettled, run-IsSettled}
use crane_tracker.System.Rollback.{perform_raises}
use crane_tracker.Exec.{request, ◌>>=◌, query, ask, commit, execute, rollback}
use crane_tracker.Storage
use crane_tracker.Crane
use crane_tracker.Tests.Values.{env, tables, crane, upload, world}

abbrev at_time : ℕ → List Reply → Conditions
at_time time replies = record {
  clock = λ _. time;
  faults = [];
  locked = λ _. false;
  replies = replies;
}

-- Two uploads, of which the second finds no place; the worker removes one object and cannot remove
-- another; a photo is deleted, and a crane is reported as gone by two hosts and deleted.
abbrev schedule : List (Transaction × Conditions)
schedule =
    (Transaction.begin_upload 1 upload, at_time 60 [])
    ∷ (Transaction.begin_upload 1 upload, at_time 61 [])
    ∷ (Transaction.claim, at_time 62 [])
    ∷ (Transaction.record_outcome 7 none, at_time 63 [])
    ∷ (Transaction.abandon 100, at_time 64 [])
    ∷ (Transaction.reap, at_time 65 [])
    ∷ (Transaction.report_crane_as_gone 1 (some "host"), at_time 66 [])
    ∷ (Transaction.report_crane_as_gone 1 (some "other"), at_time 66 [])
    ∷ (Transaction.delete_crane 1, at_time 67 (Reply.refused ∷ []))
    ∷ []

abbrev start : System
start = record { tables = tables; drawn = 0 }

tables-WithinCapacity : WithinCapacity tables
tables-WithinCapacity id = ground arith

run-WithinCapacity_example : WithinCapacity (run env schedule start).tables
run-WithinCapacity_example = run-WithinCapacity env schedule start tables-WithinCapacity

tables-IsQueued : IsQueued tables
tables-IsQueued = record { photo_ids = refl; job_ids = refl; queued = refl }

run-IsQueued_example : IsQueued (run env schedule start).tables
run-IsQueued_example = run-IsQueued env schedule start tables-IsQueued

run-Reaches_example :
    let middle = run env schedule start in
    Reaches (status_at tables 6) (status_at middle.tables 6)
    × Reaches (status_at middle.tables 6) (status_at (run env schedule middle).tables 6)
run-Reaches_example = run-Reaches env 6 (λ k. ground arith) schedule schedule start refl

run-SameTask_example : Evolves SameTask Never tables.jobs (run env schedule start).tables.jobs
run-SameTask_example = run-SameTask env schedule start

run-SameCrane_example : StillFound (some crane) (crane_at 1 (run env schedule start).tables.cranes)
run-SameCrane_example = run-SameCrane env schedule start 1 (λ k. ground arith)

run-IsReferenced_example : IsReferenced (run env schedule start).tables
run-IsReferenced_example =
    run-IsReferenced env schedule start
      (record { photos = refl; gone_reports = refl; photo_reports = refl })

run-IsSettled_example : IsSettled 2 (run env schedule start).tables
run-IsSettled_example = run-IsSettled env schedule start (record {
  referenced = record { photos = refl; gone_reports = refl; photo_reports = refl };
  settled = refl;
})

-- R2 refuses to remove the first object of the crane.
abbrev refused : World
refused = record world { replies = Reply.refused ∷ [] }

abbrev failed : World
failed = (perform env (Transaction.delete_crane 1) refused).1

fails_to_delete :
    perform env (Transaction.delete_crane 1) refused
    ≡ (err (photo_storage "Photo could not be deleted"), failed)
unfolding perform request ◌>>=◌ query ask commit execute rollback Crane.delete_crane
    Crane.delete_objects Storage.delete_photo Storage.get_s3_client Storage.get_r2_config
    Storage.connected Storage.checked
fails_to_delete = refl

perform_raises_example : failed.committed ≡ tables
perform_raises_example =
    perform_raises env (Transaction.delete_crane 1) refused failed
      (photo_storage "Photo could not be deleted") fails_to_delete
