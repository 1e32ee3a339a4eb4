-- ===== src/Exec/Leads.antt =====
-- What an action makes of the tables that it works on, where a step of it breaks an invariant that
-- a later step restores, or relies on what an earlier one has read. `P` is the invariant of the
-- committed tables; `Q` holds of the transaction's tables before, and `R` of the result and them
-- after.
use crane_tracker.Base.{◌≡◌, refl, Bool, true, false, Option, none, some, ℕ}
use crane_tracker.Models.{Db}
use crane_tracker.Errors.{Result, ok, err, Error}
use crane_tracker.Exec.{
  Action, World, pure, raise, gets, or_raise, query, rescue, caught, ◌>>=◌, continue, modify,
  execute, written, delivered, commit, ended, draw, fails, later,
}
use crane_tracker.Exec.Keeps.{Keeps, Holds, delivered-ok}

abbrev pub Ends : {A : Type 0} → (Db → Type 0) → (A → Db → Type 0) → Result A × World → Type 0
Ends P R (ok a, w) = P w.committed × R a w.working
Ends P R (err _, w) = P w.committed × Unit {0}

pub record Leads {A : Type 0} (P Q : Db → Type 0) (R : A → Db → Type 0) (m : Action A)
    : Type 0 where
  pub at : (w : World) → P w.committed → Q w.working → Ends P R (m w)

Ends-by :
    {A : Type 0} (P : Db → Type 0) (R : A → Db → Type 0) (b : Bool) (a : A) (w : World)
    → P w.committed
    → R a w.working
    → Ends P R (delivered b (ok a), w)
Ends-by P R true a w h q = (h, tt)
Ends-by P R false a w h q = (h, q)

written-Ends :
    (P R : Db → Type 0) (r : Result Db) (w : World)
    → P w.committed
    → ((d : Db) → r ≡ ok d → R d)
    → Ends P (λ _. R) (written r w)
written-Ends P R (ok d) w h k = (h, k d refl)
written-Ends P R (err e) w h k = (h, tt)

ended-Ends :
    (P Q : Db → Type 0) (b : Bool) (w : World)
    → ((d : Db) → Q d → P d)
    → P w.committed
    → Q w.working
    → Ends P (λ _. Q) (ended b w)
ended-Ends P Q true w k h q = (h, tt)
ended-Ends P Q false w k h q = (k w.working q, q)

continue-Ends :
    {A B : Type 0} (P : Db → Type 0) (R : A → Db → Type 0) (S : B → Db → Type 0)
    (r : Result A × World) (f : A → Action B)
    → Ends P R r
    → ((a : A) → Leads P (R a) S (f a))
    → Ends P S (continue r f)
continue-Ends P R S (ok a, w) f h k = (k a).at w h.0 h.1
continue-Ends P R S (err e, w) f h k = h

Holds-Ends : {A : Type 0} (P : Db → Type 0) (r : Result A × World) → Ends P (λ _. P) r → Holds P r
Holds-Ends P (ok a, w) h = h
Holds-Ends P (err e, w) h = h

caught-Ends :
    {A : Type 0} (P : Db → Type 0) (R : A → Db → Type 0) (r : Result A × World)
    (h : Error → Action A)
    → Ends P R r
    → ((e : Error) → Leads P (λ _. Unit {0}) R (h e))
    → Ends P R (caught r h)
caught-Ends P R (ok a, w) h ends leads = ends
caught-Ends P R (err e, w) h ends leads = (leads e).at w ends.0 tt

module _ {P Q : Db → Type 0} {A : Type 0} where
  pub Leads-pure : (R : A → Db → Type 0) (a : A) → ((d : Db) → Q d → R a d) → Leads P Q R (pure a)
  unfolding pure
  Leads-pure R a k = record { at = λ w h q. (h, k w.working q) }

  pub Leads-query : (f : Db → A) → Leads P Q (λ a d. Q d × (a ≡ f d)) (query f)
  unfolding query
  Leads-query f = record {
    at = λ w h q.
        Ends-by P (λ a d. Q d × (a ≡ f d)) (fails w.faults) (f w.working)
          (record w { faults = later w.faults }) h (q, refl);
  }

  pub Leads-or_raise :
      (o : Option A) (e : Error) → Leads P Q (λ a d. Q d × (o ≡ some a)) (or_raise o e)
  unfolding or_raise
  Leads-or_raise none e = record { at = λ w h q. (h, tt) }
  Leads-or_raise (some a) e = record { at = λ w h q. (h, (q, refl)) }

  pub Leads-gets : (f : World → A) → Leads P Q (λ _. Q) (gets f)
  unfolding gets
  Leads-gets f = record { at = λ w h q. (h, q) }

  pub Leads-draw : (source : ℕ → A) → Leads P Q (λ _. Q) (draw source)
  unfolding draw
  Leads-draw source = record { at = λ w h q. (h, q) }

  pub Leads-raise : (R : A → Db → Type 0) (e : Error) → Leads P Q R (raise e)
  unfolding raise
  Leads-raise R e = record { at = λ w h q. (h, tt) }

  -- a handler knows nothing of the tables of the transaction that it ends
  pub Leads-rescue :
      (R : A → Db → Type 0) (m : Action A) (h : Error → Action A)
      → Leads P Q R m
      → ((e : Error) → Leads P (λ _. Unit {0}) R (h e))
      → Leads P Q R (rescue m h)
  unfolding rescue
  Leads-rescue R m h lm lh = record { at = λ w c q. caught-Ends P R (m w) h (lm.at w c q) lh }

module _ {P Q : Db → Type 0} {A B : Type 0} where
  pub Leads-bind :
      (R : A → Db → Type 0) (S : B → Db → Type 0) (m : Action A) (f : A → Action B)
      → Leads P Q R m
      → ((a : A) → Leads P (R a) S (f a))
      → Leads P Q S (m >>= f)
  unfolding ◌>>=◌
  Leads-bind R S m f km kf = record { at = λ w h q. continue-Ends P R S (m w) f (km.at w h q) kf }

module _ {P Q : Db → Type 0} where
  pub Leads-modify :
      (R : Db → Type 0) (f : Db → Db) → ((d : Db) → Q d → R (f d)) → Leads P Q (λ _. R) (modify f)
  unfolding modify
  Leads-modify R f k = record { at = λ w h q. (h, k w.working q) }

  pub Leads-execute :
      (R : Db → Type 0) (f : Db → Result Db)
      → ((d d' : Db) → f d ≡ ok d' → Q d → R d')
      → Leads P Q (λ _. R) (execute f)
  unfolding execute
  Leads-execute R f k = record {
    at = λ w h q.
        written-Ends P R (delivered (fails w.faults) (f w.working))
          (record w { faults = later w.faults }) h
          (λ d e. k w.working d (delivered-ok (fails w.faults) (f w.working) d e) q);
  }

  pub Leads-commit : ((d : Db) → Q d → P d) → Leads P Q (λ _. Q) commit
  unfolding commit
  Leads-commit k = record {
    at = λ w h q. ended-Ends P Q (fails w.faults) (record w { faults = later w.faults }) k h q;
  }

weaken-Ends :
    {A : Type 0} (P : Db → Type 0) (R S : A → Db → Type 0) (r : Result A × World)
    → Ends P R r
    → ((a : A) (d : Db) → R a d → S a d)
    → Ends P S r
weaken-Ends P R S (ok a, w) h k = (h.0, k a w.working h.1)
weaken-Ends P R S (err e, w) h k = h

module _ {P Q : Db → Type 0} {A : Type 0} where
  pub Leads-weaken :
      (R S : A → Db → Type 0) (m : Action A)
      → Leads P Q R m
      → ((a : A) (d : Db) → R a d → S a d)
      → Leads P Q S m
  Leads-weaken R S m l k = record { at = λ w h q. weaken-Ends P R S (m w) (l.at w h q) k }

  pub Leads-given :
      {O : Db → Type 0} (R : A → Db → Type 0) (m : Action A)
      → Leads P Q R m
      → ((d : Db) → O d → Q d)
      → Leads P O R m
  Leads-given R m l k = record { at = λ w h o. l.at w h (k w.working o) }

module _ {P : Db → Type 0} {A : Type 0} where
  -- An action that leads from the invariant back to it keeps it.
  pub Keeps-Leads : (m : Action A) → Leads P P (λ _. P) m → Keeps P m
  Keeps-Leads m l = record { at = λ w h k. Holds-Ends P (m w) (l.at w h k) }
