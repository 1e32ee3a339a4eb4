-- ===== src/Exec/Keeps/Writes.antt =====
-- Invariants under the statements that write, under commits and rollbacks, and under a handler.
use crane_tracker.Base.{◌≡◌, refl, subst, sym}
use crane_tracker.Models.{Db}
use crane_tracker.Errors.{Result, ok, err, ok-injective}
use crane_tracker.Exec.{
  Action, World, Request, modify, execute, written, delivered, commit, rollback, ask, request,
  fails, later,
}
use crane_tracker.Exec.Keeps.Defs.{
  Keeps, Recovers, Holds, Holds-committed, delivered-ok, ended-Holds, request-Holds,
}

module _ {P : Db → Type 0} where
  pub Keeps-modify : (f : Db → Db) → ((d : Db) → P d → P (f d)) → Keeps P (modify f)
  unfolding modify
  Keeps-modify f k = record { at = λ w h p. (h, k w.working p) }

  written-Holds :
      (r : Result Db) (w : World)
      → P w.committed
      → ((d : Db) → r ≡ ok d → P d)
      → Holds P (written r w)
  written-Holds (ok d) w h k = (h, k d refl)
  written-Holds (err e) w h k = (h, tt)

  -- a statement on the tables at hand
  pub execute-Holds :
      (f : Db → Result Db) (w : World)
      → P w.committed
      → ((d : Db) → f w.working ≡ ok d → P d)
      → Holds P (execute f w)
  unfolding execute
  execute-Holds f w h k =
      written-Holds (delivered (fails w.faults) (f w.working))
        (record w { faults = later w.faults }) h
        (λ d e. k d (delivered-ok (fails w.faults) (f w.working) d e))

  pub Keeps-execute :
      (f : Db → Result Db) → ((d d' : Db) → f d ≡ ok d' → P d → P d') → Keeps P (execute f)
  Keeps-execute f k = record { at = λ w h p. execute-Holds f w h (λ d e. k w.working d e p) }

  -- a statement that changes the tables by `g`, if it is not refused
  pub Keeps-execute_as :
      (f : Db → Result Db) (g : Db → Db)
      → ((d d' : Db) → f d ≡ ok d' → d' ≡ g d)
      → ((d : Db) → P d → P (g d))
      → Keeps P (execute f)
  Keeps-execute_as f g as_g k = Keeps-execute f (λ d d' e h. subst P (sym (as_g d d' e)) (k d h))

  -- a statement that no constraint refuses
  pub Keeps-execute_ok :
      (f : Db → Db) → ((d : Db) → P d → P (f d)) → Keeps P (execute (λ d. ok (f d)))
  Keeps-execute_ok f k = Keeps-execute _ (λ d d' e h. subst P (ok-injective e) (k d h))

  pub Keeps-commit : Keeps P commit
  unfolding commit
  Keeps-commit = record {
    at = λ w h k. ended-Holds P (fails w.faults) (record w { faults = later w.faults }) h k;
  }

  pub Recovers-rollback : Recovers P rollback
  unfolding rollback
  Recovers-rollback = record { at = λ w h. (h, h) }

  pub Keeps-rollback : Keeps P rollback
  Keeps-rollback = record { at = λ w h k. Recovers-rollback.at w h }

  pub Keeps-ask : (r : Request) → Keeps P (ask r)
  unfolding ask
  Keeps-ask r = record { at = λ w h k. (h, k) }

module _ {P : Db → Type 0} {A : Type 0} where
  pub Keeps-request : (m : Action A) → Keeps P m → Keeps P (request m)
  unfolding request
  Keeps-request m km = record { at = λ w h k. request-Holds P (m w) (km.at w h k) }

  pub Keeps-recovery : (m : Action A) → Recovers P m → Keeps P m
  Keeps-recovery m rm = record { at = λ w h k. rm.at w h }

  -- What other sessions see after an action that keeps `P`.
  pub Keeps-committed :
      (m : Action A) (w : World) → Keeps P m → P w.committed → P w.working → P (m w).1.committed
  Keeps-committed m w km h k = Holds-committed P (m w).0 (m w).1 (km.at w h k)
