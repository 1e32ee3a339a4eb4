-- ===== src/System/Statements/Outcomes.antt =====
-- An invariant of the tables under the worker's claims and outcomes, and under sign-in and sign-out.
use crane_tracker.Base.{ℕ, sym, subst, String, Bool, List, update}
use crane_tracker.Models.{Db, CranePhoto, OutboxJob, AdminUser, AdminToken, JobOperation}
use crane_tracker.Errors.{ok}
use crane_tracker.Env.{Env}
use crane_tracker.Database.{insert_token, delete_photos}
use crane_tracker.Database.Frame
use crane_tracker.Exec.{execute, modify}
use crane_tracker.Exec.Keeps.{
  Keeps, keeps_rules, Keeps-execute, Keeps-execute_as, Keeps-execute_ok, Keeps-modify,
}
use crane_tracker.Worker.Jobs
use crane_tracker.Auth
use crane_tracker.System.Statements.Defs.{Survives}

module _ (env : Env) {P : Db → Type 0} (o : Survives P) where
  token-Keeps : (t : AdminToken) → Keeps P (execute (insert_token t))
  token-Keeps t =
      Keeps-execute _
        λ d d' e h. subst P (sym (Frame.token_row t d d' e)) (o.token_inserted t d d' e h)

  purge-Keeps : (time : ℕ) → Keeps P (execute (λ d. ok (Auth.purge time d)))
  purge-Keeps time = Keeps-execute_ok (Auth.purge time) (o.tokens_deleted _)

  pub session_opened-Keeps :
      (dummy : String) (u : AdminUser) → Keeps P (Auth.open_session env dummy u)
  unfolding Auth.open_session
  session_opened-Keeps dummy u = search (keeps_rules, token-Keeps, purge-Keeps) depth 15

  pub signed_out-Keeps : (token : String) → Keeps P (Auth.sign_out env token)
  unfolding Auth.sign_out
  signed_out-Keeps token = Keeps-execute_ok _ (o.tokens_deleted _)

  claim-Keeps :
      (lease : ℕ) (jobs : List OutboxJob)
      → Keeps P (
          modify (λ d. record d { jobs = update (Jobs.is_among jobs) (Jobs.claimed lease) d.jobs }))
  claim-Keeps lease jobs = Keeps-modify _ (o.jobs_claimed jobs lease)

  pub claimed-Keeps : Keeps P (Jobs.claim_jobs env JobOperation.delete env.settings.job_batch_size)
  unfolding Jobs.claim_jobs
  claimed-Keeps = search (keeps_rules, claim-Keeps) depth 12

  failure_row-Keeps :
      (id time : ℕ) (text : String) → Keeps P (execute (Jobs.failure_row env id time text))
  failure_row-Keeps id time text =
      Keeps-execute_as _ (Jobs.update_job id (Jobs.failed_row env.settings time text))
        (Jobs.failure_row_lem env id time text) (o.job_failed env.settings id time text)

  pub failed-Keeps : (id : ℕ) (text : String) → Keeps P (Jobs.capture_failure env id text)
  unfolding Jobs.capture_failure Jobs.calculate_backoff
  failed-Keeps id text = search (keeps_rules, failure_row-Keeps) depth 15

  completed-Keeps :
      (id time : ℕ) → Keeps P (execute (λ d. ok (Jobs.update_job id (Jobs.completed_row time) d)))
  completed-Keeps id time =
      Keeps-execute_ok (Jobs.update_job id (Jobs.completed_row time)) (o.job_completed id time)

  removed-Keeps : (test : CranePhoto → Bool) → Keeps P (execute (λ d. ok (delete_photos test d)))
  removed-Keeps test = Keeps-execute_ok (delete_photos test) (o.photos_deleted test)

  pub succeeded-Keeps : (id : ℕ) → Keeps P (Jobs.capture_success id)
  unfolding Jobs.capture_success
  succeeded-Keeps id = search (keeps_rules, completed-Keeps, removed-Keeps) depth 15
