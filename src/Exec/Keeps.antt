-- ===== src/Exec/Keeps.antt =====
-- Invariants of the tables under an action, one rule for each way to build an action. A transaction
-- may break the invariant on its way, but not when it ends well, and never for other sessions.
mod Defs
mod Flow
mod Writes
pub use Defs.{Keeps, Recovers, Holds, Finds, delivered-ok}
pub use Flow.{
  Keeps-pure, Keeps-raise, Recovers-raise, Keeps-lift, Keeps-gets, Keeps-or_raise, Keeps-query,
  Keeps-draw, Keeps-draw_bind, Keeps-if, Keeps-rescue, Recovers-rescue, continue-Holds, Keeps-bind,
  Keeps-bind_after, Recovers-bind,
}
pub use Writes.{
  Keeps-modify, execute-Holds, Keeps-execute, Keeps-execute_as, Keeps-execute_ok, Keeps-commit,
  Recovers-rollback, Keeps-rollback, Keeps-ask, Keeps-request, Keeps-recovery, Keeps-committed,
}

pub ruleset keeps_rules = (
  Keeps-pure, Keeps-raise, Keeps-lift, Keeps-gets, Keeps-or_raise, Keeps-query, Keeps-draw,
  Keeps-if, Keeps-rescue, Keeps-bind, Keeps-commit, Keeps-rollback, Keeps-ask, Keeps-request,
  Recovers-raise, Recovers-rescue, Recovers-bind, Recovers-rollback,
)
