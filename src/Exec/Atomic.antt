-- ===== src/Exec/Atomic.antt =====
-- Exceptions and commits: an action that commits last leaves what other sessions see as it was, if
-- it raises.
use crane_tracker.Base.{ℕ, ◌≡◌, refl, ◌∙◌, Bool, true, false, Option, none, some, if◌then◌else◌}
use crane_tracker.Models.{Db}
use crane_tracker.Errors.{Result, ok, err, Error}
use crane_tracker.Exec.{
  Action, World, Request, pure, raise, lift, gets, or_raise, query, rescue, caught, ◌>>=◌, continue,
  modify, execute, written, delivered, commit, ended, rollback, draw, ask, request, fails, later,
}

-- The action commits nothing.
pub record Quiet {A : Type 0} (m : Action A) : Type 0 where
  pub at : (w : World) → (m w).1.committed ≡ w.committed

-- An outcome that is no exception, or that has left `d` committed.
abbrev pub Undone : {A : Type 0} → Db → Result A × World → Type 0
Undone d (ok _, w) = Unit {0}
Undone d (err _, w) = w.committed ≡ d

-- If the action raises, it has committed nothing.
pub record Atomic {A : Type 0} (m : Action A) : Type 0 where
  pub at : (w : World) → Undone w.committed (m w)

module _ {A : Type 0} where
  quiet-Undone : (d : Db) (r : Result A × World) → r.1.committed ≡ d → Undone d r
  quiet-Undone d (ok a, w) h = tt
  quiet-Undone d (err e, w) h = h

  pub Atomic-Quiet : (m : Action A) → Quiet m → Atomic m
  Atomic-Quiet m q = record { at = λ w. quiet-Undone w.committed (m w) (q.at w) }

  pub Quiet-pure : (a : A) → Quiet (pure a)
  unfolding pure
  Quiet-pure a = record { at = λ w. refl }

  pub Quiet-raise : (e : Error) → Quiet (raise {A = A} e)
  unfolding raise
  Quiet-raise e = record { at = λ w. refl }

  pub Atomic-raise : (e : Error) → Atomic (raise {A = A} e)
  Atomic-raise e = Atomic-Quiet (raise e) (Quiet-raise e)

  pub Quiet-lift : (r : Result A) → Quiet (lift r)
  unfolding lift
  Quiet-lift r = record { at = λ w. refl }

  pub Quiet-gets : (f : World → A) → Quiet (gets f)
  unfolding gets
  Quiet-gets f = record { at = λ w. refl }

  pub Quiet-or_raise : (o : Option A) (e : Error) → Quiet (or_raise o e)
  unfolding or_raise
  Quiet-or_raise none e = Quiet-raise e
  Quiet-or_raise (some a) e = Quiet-pure a

  pub Quiet-query : (f : Db → A) → Quiet (query f)
  unfolding query
  Quiet-query f = record { at = λ w. refl }

  pub Quiet-draw : (source : ℕ → A) → Quiet (draw source)
  unfolding draw
  Quiet-draw source = record { at = λ w. refl }

  pub Quiet-if : (b : Bool) (m n : Action A) → Quiet m → Quiet n → Quiet (if b then m else n)
  Quiet-if true m n qm qn = qm
  Quiet-if false m n qm qn = qn

  pub Atomic-if : (b : Bool) (m n : Action A) → Atomic m → Atomic n → Atomic (if b then m else n)
  Atomic-if true m n am an = am
  Atomic-if false m n am an = an

  caught-committed :
      (r : Result A × World) (h : Error → Action A)
      → ((e : Error) → Quiet (h e))
      → (caught r h).1.committed ≡ r.1.committed
  caught-committed (ok a, w) h q = refl
  caught-committed (err e, w) h q = (q e).at w

  caught-Undone :
      (d : Db) (r : Result A × World) (h : Error → Action A)
      → Undone d r
      → ((e : Error) → Quiet (h e))
      → Undone d (caught r h)
  caught-Undone d (ok a, w) h u q = tt
  caught-Undone d (err e, w) h u q = quiet-Undone d (h e w) ((q e).at w ∙ u)

  pub Quiet-rescue :
      (m : Action A) (h : Error → Action A)
      → Quiet m
      → ((e : Error) → Quiet (h e))
      → Quiet (rescue m h)
  unfolding rescue
  Quiet-rescue m h qm qh = record { at = λ w. caught-committed (m w) h qh ∙ qm.at w }

  pub Atomic-rescue :
      (m : Action A) (h : Error → Action A)
      → Atomic m
      → ((e : Error) → Quiet (h e))
      → Atomic (rescue m h)
  unfolding rescue
  Atomic-rescue m h am qh = record { at = λ w. caught-Undone w.committed (m w) h (am.at w) qh }

  request-Undone : (d : Db) (r : Result A × World) → Undone d r → Undone d (r.0, (rollback r.1).1)
  unfolding rollback
  request-Undone d (ok a, w) u = tt
  request-Undone d (err e, w) u = u

  pub Atomic-request : (m : Action A) → Atomic m → Atomic (request m)
  unfolding request
  Atomic-request m am = record { at = λ w. request-Undone w.committed (m w) (am.at w) }

moved : {B : Type 0} (d d' : Db) (r : Result B × World) → d ≡ d' → Undone d r → Undone d' r
moved d d' (ok b, w) e u = tt
moved d d' (err x, w) e u = u ∙ e

module _ {A B : Type 0} where
  continue-committed :
      (r : Result A × World) (f : A → Action B)
      → ((a : A) → Quiet (f a))
      → (continue r f).1.committed ≡ r.1.committed
  continue-committed (ok a, w) f q = (q a).at w
  continue-committed (err e, w) f q = refl

  pub Quiet-bind :
      (m : Action A) (f : A → Action B) → Quiet m → ((a : A) → Quiet (f a)) → Quiet (m >>= f)
  unfolding ◌>>=◌
  Quiet-bind m f qm qf = record { at = λ w. continue-committed (m w) f qf ∙ qm.at w }

  continue-Undone :
      (r : Result A × World) (f : A → Action B)
      → ((a : A) → Atomic (f a))
      → Undone r.1.committed (continue r f)
  continue-Undone (ok a, w) f af = (af a).at w
  continue-Undone (err e, w) f af = refl

  -- what commits comes last
  pub Atomic-bind :
      (m : Action A) (f : A → Action B) → Quiet m → ((a : A) → Atomic (f a)) → Atomic (m >>= f)
  unfolding ◌>>=◌
  Atomic-bind m f qm af = record {
    at = λ w.
        moved (m w).1.committed w.committed (continue (m w) f) (qm.at w)
          (continue-Undone (m w) f af);
  }

  returned-Undone :
      (d : Db) (r : Result A × World) (f : A → B)
      → Undone d r
      → Undone d (continue r (λ a. pure (f a)))
  unfolding pure
  returned-Undone d (ok a, w) f u = tt
  returned-Undone d (err e, w) f u = u

  -- or only a result is computed after it
  pub Atomic-return : (m : Action A) (f : A → B) → Atomic m → Atomic (m >>= λ a. pure (f a))
  unfolding ◌>>=◌
  Atomic-return m f am = record { at = λ w. returned-Undone w.committed (m w) f (am.at w) }

pub Quiet-modify : (f : Db → Db) → Quiet (modify f)
unfolding modify
Quiet-modify f = record { at = λ w. refl }

written-committed : (r : Result Db) (w : World) → (written r w).1.committed ≡ w.committed
written-committed (ok d) w = refl
written-committed (err e) w = refl

pub Quiet-execute : (f : Db → Result Db) → Quiet (execute f)
unfolding execute
Quiet-execute f = record {
  at = λ w.
      written-committed (delivered (fails w.faults) (f w.working))
        (record w { faults = later w.faults });
}

pub Quiet-rollback : Quiet rollback
unfolding rollback
Quiet-rollback = record { at = λ w. refl }

pub Quiet-ask : (r : Request) → Quiet (ask r)
unfolding ask
Quiet-ask r = record { at = λ w. refl }

ended-Undone : (b : Bool) (w : World) → Undone w.committed (ended b w)
ended-Undone true w = refl
ended-Undone false w = tt

pub Atomic-commit : Atomic commit
unfolding commit
Atomic-commit = record {
  at = λ w. ended-Undone (fails w.faults) (record w { faults = later w.faults });
}

pub ruleset quiet_rules = (
  Quiet-pure, Quiet-raise, Quiet-lift, Quiet-gets, Quiet-or_raise, Quiet-query, Quiet-draw,
  Quiet-if, Quiet-rescue, Quiet-bind, Quiet-modify, Quiet-execute, Quiet-rollback, Quiet-ask,
)

pub ruleset atomic_rules = (
  quiet_rules, Atomic-request, Atomic-bind, Atomic-return, Atomic-commit, Atomic-rescue, Atomic-if,
  Atomic-raise,
)
