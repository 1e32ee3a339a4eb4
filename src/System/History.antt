-- ===== src/System/History.antt =====
-- What becomes of the jobs under any sequence of transactions.
pub mod Rows
pub mod Cranes
use crane_tracker.Base.{
  ℕ, ◌≡◌, refl, sym, ap, ◌∙◌, subst, ◌≤◌, Bool, true, List, ◌⊎◌, inl, inr, arith,
}
use crane_tracker.Models.{Db, Crane, CraneStatus, OutboxJob}
use crane_tracker.Env.{Env}
use crane_tracker.Database.{delete_crane_row, delete_photos}
use crane_tracker.Photo.Review.{insert_unless_reported-row}
use crane_tracker.System.Statements.{Survives, SurvivesReport, Respects-Survives}
use crane_tracker.System.Defs.{Transaction, Conditions, System, run}
use crane_tracker.System.Induction.{run_keeps}
use crane_tracker.System.Handlers.{perform-Keeps}
use crane_tracker.Crane
use crane_tracker.Worker.Jobs
use Rows.{Evolves, unchanged, added, Evolves-update, Evolves-delete}

-- What a job keeps: its task, its times of creation, and the attempts that it has made.
pub record SameTask (j j' : OutboxJob) : Type 0 where
  pub id : j'.id ≡ j.id
  pub operation : j'.operation ≡ j.operation
  pub storage_key : j'.storage_key ≡ j.storage_key
  pub created_at : j'.created_at ≡ j.created_at
  pub attempts : j.attempts ≤ j'.attempts

abbrev pub Never : Type 0
Never = true ≡ Bool.false

abbrev JobsOf : Db → Db → Type 0
JobsOf d₀ d = Evolves SameTask Never d₀.jobs d.jobs

same_task : (j : OutboxJob) → SameTask j j
same_task j = record {
  id = refl;
  operation = refl;
  storage_key = refl;
  created_at = refl;
  attempts = omega arith;
}

-- a change of what a job does not keep, or one more attempt
still_task :
    (j k k' : OutboxJob)
    → k'.id ≡ k.id
    → k'.operation ≡ k.operation
    → k'.storage_key ≡ k.storage_key
    → k'.created_at ≡ k.created_at
    → k.attempts ≤ k'.attempts
    → SameTask j k
    → SameTask j k'
still_task j k k' i o s c a h = record {
  id = i ∙ h.id;
  operation = o ∙ h.operation;
  storage_key = s ∙ h.storage_key;
  created_at = c ∙ h.created_at;
  attempts = omega (arith, a, h.attempts);
}

Survives-JobsOf : (d₀ : Db) → Survives (JobsOf d₀)
unfolding delete_crane_row delete_photos
Survives-JobsOf d₀ = record {
  crane_deleted = λ id d h. h;
  photo_activated = λ id d h. h;
  photo_marked = λ id d h. h;
  photos_deleted = λ test d h. h;
  photo_reported = λ r d d' e h. subst (JobsOf d₀) (sym (insert_unless_reported-row r d d' e)) h;
  job_inserted = λ j d d' e h. added h;
  jobs_claimed = λ jobs lease d.
      Evolves-update _ _
        (λ j k hit. still_task j k (Jobs.claimed lease k) refl refl refl refl (omega arith));
  job_failed = λ s id time text d.
      Evolves-update _ _ (λ j k hit.
        still_task j k (Jobs.failed_row s time text k) refl refl refl refl (omega arith));
  job_completed = λ id time d.
      Evolves-update _ _
        (λ j k hit. still_task j k (Jobs.completed_row time k) refl refl refl refl (omega arith));
  token_inserted = λ t d d' e h. h;
  tokens_deleted = λ test d h. h;
}

SurvivesReport-JobsOf : (d₀ : Db) → SurvivesReport (JobsOf d₀)
SurvivesReport-JobsOf d₀ = record {
  crane_gone = λ id time d h. h;
  gone_report_inserted = λ r d d' e h. h;
}

-- Over any sequence of transactions no job is ever lost: each is still there in its place, with the
-- same id, task and time of creation, and with at least the attempts it had. The
-- jobs that were not there before stand in front of these or between them.
pub run-SameTask :
    (env : Env) (schedule : List (Transaction × Conditions)) (s : System)
    → Evolves SameTask Never s.tables.jobs (run env schedule s).tables.jobs
run-SameTask env schedule s =
    run_keeps env
      (perform-Keeps env (
        Respects-Survives env (Survives-JobsOf s.tables) (λ c d d' new drawn e h. h)
          (SurvivesReport-JobsOf s.tables) (λ p d d' new drawn e h. h)))
      schedule s (unchanged same_task s.tables.jobs)
