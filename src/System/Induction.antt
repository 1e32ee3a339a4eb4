-- ===== src/System/Induction.antt =====
-- What every transaction keeps holds after any schedule.
use crane_tracker.Base.{List, [], ◌∷◌}
use crane_tracker.Models.{Db}
use crane_tracker.Env.{Env}
use crane_tracker.Exec.Keeps.{Keeps, Keeps-committed}
use crane_tracker.System.Defs.{Transaction, Conditions, System, perform, open_session, step, run}

module _ (env : Env) {P : Db → Type 0} (keeps : (t : Transaction) → Keeps P (perform env t)) where
  step_keeps :
      (t : Transaction) (c : Conditions) (s : System) → P s.tables → P (step env (t, c) s).tables
  unfolding step
  step_keeps t c s h = Keeps-committed (perform env t) (open_session s c) (keeps t) h h

  pub run_keeps :
      (schedule : List (Transaction × Conditions)) (s : System)
      → P s.tables
      → P (run env schedule s).tables
  unfolding run
  run_keeps [] s h = h
  run_keeps ((t, c) ∷ ts) s h = run_keeps ts (step env (t, c) s) (step_keeps t c s h)
