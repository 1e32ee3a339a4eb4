-- ===== src/Exec/Keeps/Flow.antt =====
-- Invariants under the ways to compose actions, and under the actions that write nothing.
use crane_tracker.Base.{ℕ, suc, ◌≡◌, refl, Bool, true, false, Option, none, some, if◌then◌else◌}
use crane_tracker.Models.{Db}
use crane_tracker.Errors.{Result, ok, err, Error}
use crane_tracker.Exec.{
  Action, World, pure, raise, lift, gets, or_raise, query, rescue, caught, ◌>>=◌, continue, draw,
  fails, later,
}
use crane_tracker.Exec.Keeps.Defs.{Keeps, Recovers, Holds, Finds, delivered-Holds}

module _ {P : Db → Type 0} {A : Type 0} where
  pub Keeps-pure : (a : A) → Keeps P (pure a)
  unfolding pure
  Keeps-pure a = record { at = λ w h k. (h, k) }

  pub Keeps-raise : (e : Error) → Keeps P (raise {A = A} e)
  unfolding raise
  Keeps-raise e = record { at = λ w h k. (h, tt) }

  pub Recovers-raise : (e : Error) → Recovers P (raise {A = A} e)
  unfolding raise
  Recovers-raise e = record { at = λ w h. (h, tt) }

  pub Keeps-lift : (r : Result A) → Keeps P (lift r)
  unfolding lift
  Keeps-lift (ok a) = record { at = λ w h k. (h, k) }
  Keeps-lift (err e) = record { at = λ w h k. (h, tt) }

  pub Keeps-gets : (f : World → A) → Keeps P (gets f)
  unfolding gets
  Keeps-gets f = record { at = λ w h k. (h, k) }

  pub Keeps-or_raise : (o : Option A) (e : Error) → Keeps P (or_raise o e)
  unfolding or_raise
  Keeps-or_raise none e = Keeps-raise e
  Keeps-or_raise (some a) e = Keeps-pure a

  pub Keeps-query : (f : Db → A) → Keeps P (query f)
  unfolding query
  Keeps-query f = record {
    at = λ w h k.
        delivered-Holds P (fails w.faults) (ok (f w.working)) (record w { faults = later w.faults })
          h k;
  }

  pub Keeps-draw : (source : ℕ → A) → Keeps P (draw source)
  unfolding draw
  Keeps-draw source = record { at = λ w h k. (h, k) }

  pub Keeps-if :
      (b : Bool) (m n : Action A)
      → (b ≡ true → Keeps P m)
      → (b ≡ false → Keeps P n)
      → Keeps P (if b then m else n)
  Keeps-if true m n yes_case no_case = yes_case refl
  Keeps-if false m n yes_case no_case = no_case refl

  caught-Holds :
      (r : Result A × World) (h : Error → Action A)
      → Holds P r
      → ((e : Error) → Recovers P (h e))
      → Holds P (caught r h)
  caught-Holds (ok a, w) h holds recovers = holds
  caught-Holds (err e, w) h holds recovers = (recovers e).at w holds.0

  pub Keeps-rescue :
      (m : Action A) (h : Error → Action A)
      → Keeps P m
      → ((e : Error) → Recovers P (h e))
      → Keeps P (rescue m h)
  unfolding rescue
  Keeps-rescue m h km rh = record { at = λ w c k. caught-Holds (m w) h (km.at w c k) rh }

  pub Recovers-rescue :
      (m : Action A) (h : Error → Action A)
      → Recovers P m
      → ((e : Error) → Recovers P (h e))
      → Recovers P (rescue m h)
  unfolding rescue
  Recovers-rescue m h rm rh = record { at = λ w c. caught-Holds (m w) h (rm.at w c) rh }

module _ {P : Db → Type 0} {A B : Type 0} where
  -- What follows a draw may use that its value was drawn.
  pub Keeps-draw_bind :
      (source : ℕ → A) (f : A → Action B)
      → ((k : ℕ) → Keeps P (f (source k)))
      → Keeps P (draw source >>= f)
  unfolding ◌>>=◌ draw
  Keeps-draw_bind source f kf = record {
    at = λ w h k. (kf w.drawn).at (record w { drawn = suc w.drawn }) h k;
  }

  pub continue-Holds :
      (r : Result A × World) (f : A → Action B)
      → Holds P r
      → ((a : A) → Keeps P (f a))
      → Holds P (continue r f)
  continue-Holds (ok a, w) f holds keeps = (keeps a).at w holds.0 holds.1
  continue-Holds (err e, w) f holds keeps = holds

  pub Keeps-bind :
      (m : Action A) (f : A → Action B) → Keeps P m → ((a : A) → Keeps P (f a)) → Keeps P (m >>= f)
  unfolding ◌>>=◌
  Keeps-bind m f km kf = record { at = λ w h k. continue-Holds (m w) f (km.at w h k) kf }

  -- The second part may use what the first has found out about the tables.
  pub Keeps-bind_after :
      (m : Action A) (f : A → Action B) (Q : A → Db → Type 0)
      → Keeps P m
      → ((w : World) → P w.working → Finds Q (m w))
      → ((a : A) (w : World) → P w.committed → P w.working → Q a w.working → Holds P (f a w))
      → Keeps P (m >>= f)
  unfolding ◌>>=◌
  Keeps-bind_after m f Q km post kf = record { at = λ w h k. go (m w) (km.at w h k) (post w k) }
    where
      go : (r : Result A × World) → Holds P r → Finds Q r → Holds P (continue r f)
      go (ok a, w) h q = kf a w h.0 h.1 q
      go (err e, w) h q = h

  pub Recovers-bind :
      (m : Action A) (f : A → Action B)
      → Recovers P m
      → ((a : A) → Keeps P (f a))
      → Recovers P (m >>= f)
  unfolding ◌>>=◌
  Recovers-bind m f rm kf = record { at = λ w h. continue-Holds (m w) f (rm.at w h) kf }
