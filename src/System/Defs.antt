-- ===== src/System/Defs.antt =====
-- The transactions, and the database under a sequence of them. Each is a function of the handlers
-- in app/routes/ or of app/worker/photo_jobs.py up to its commit, on a session of its own.
use crane_tracker.Base.{ℕ, String, Bool, Option, List, [], ◌∷◌}
use crane_tracker.Models.{Db, JobOperation, CranePhoto}
use crane_tracker.Schemas.{CreateCraneRequest}
use crane_tracker.Env.{Env}
use crane_tracker.Exec.{Action, World, Reply, pure, request, commit, ◌>>◌}
use crane_tracker.Photo.Upload.{UploadFile}
use crane_tracker.Worker.Jobs.{claim_jobs, record_job_outcome}
use crane_tracker.Worker.Batch.{run_reap_crane_photos}
use crane_tracker.Routes.Cranes
use crane_tracker.Routes.Photos
use crane_tracker.Routes.Admin
use crane_tracker.Crane

pub data Transaction : Type 0 where
  create_crane : CreateCraneRequest → Transaction
  delete_crane : ℕ → Transaction
  report_crane_as_gone : ℕ → Option String → Transaction
  begin_upload : ℕ → UploadFile → Transaction
  store_and_finalize : CranePhoto → List ℕ → Transaction
  abandon : ℕ → Transaction
  delete_crane_photo : Option String → ℕ → ℕ → Transaction
  report_crane_photo : ℕ → ℕ → Option String → Transaction
  login : String → String → String → Transaction
  logout : Option String → Transaction
  claim : Transaction
  record_outcome : ℕ → Option String → Transaction
  reap : Transaction

abbrev ignore : {A : Type 0} → Action A → Action (Unit {0})
ignore m = m >> pure tt

unfoldable pub perform : Env → Transaction → Action (Unit {0})
perform env (create_crane input) = ignore (Cranes.create_crane env input)
perform env (delete_crane id) = request (Crane.delete_crane env id >> commit)
perform env (report_crane_as_gone id host) = Cranes.report_crane_as_gone env id host
perform env (begin_upload crane_id upload) =
    ignore (request (Photos.begin_upload env crane_id upload))
perform env (store_and_finalize photo file) =
    ignore (request (Photos.store_and_finalize env photo file))
perform env (abandon photo_id) = request (Photos.abandon_helper env photo_id)
perform env (delete_crane_photo credentials crane_id photo_id) =
    Photos.delete_crane_photo env credentials crane_id photo_id
perform env (report_crane_photo crane_id photo_id host) =
    ignore (Photos.report_crane_photo env crane_id photo_id host)
perform env (login dummy username password) = ignore (Admin.login env dummy username password)
perform env (logout credentials) = Admin.logout env credentials
perform env claim =
    ignore (request (claim_jobs env JobOperation.delete env.settings.job_batch_size))
perform env (record_outcome job_id err_str) =
    ignore (request (record_job_outcome env job_id err_str))
perform env reap = ignore (request (run_reap_crane_photos env))

-- The database between two transactions, and how many UUIDs and tokens were drawn.
pub record System : Type 0 where
  pub tables : Db
  pub drawn : ℕ

-- What a transaction meets: its time, the statements that fail, the rows that others hold, and the
-- answers of R2.
pub record Conditions : Type 0 where
  pub clock : ℕ → ℕ
  pub faults : List Bool
  pub locked : ℕ → Bool
  pub replies : List Reply

abbrev pub open_session : System → Conditions → World
open_session s c = record {
  committed = s.tables;
  working = s.tables;
  transaction = 0;
  clock = c.clock;
  faults = c.faults;
  drawn = s.drawn;
  locked = c.locked;
  replies = c.replies;
  requests = [];
}

abbrev closed : World → System
closed w = record { tables = w.committed; drawn = w.drawn }

unfoldable pub step : Env → Transaction × Conditions → System → System
step env (t, c) s = closed (perform env t (open_session s c)).1

unfoldable pub run : Env → List (Transaction × Conditions) → System → System
unfolding step
run env [] s = s
run env (t ∷ ts) s = run env ts (step env t s)
