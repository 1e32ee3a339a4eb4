-- ===== src/Exec/Outcome.antt =====
-- What an action that returns has done, step by step.
use crane_tracker.Base.{◌≡◌, refl, Option, none, some, arith}
use crane_tracker.Models.{Db}
use crane_tracker.Errors.{Result, ok, err, Error}
use crane_tracker.Exec.{World, Action, or_raise, pure, raise, query, execute, continue, later}

-- What a sequence of two actions says of the first, if it returns.
pub bound :
    {A B : Type 0} (r : Result A × World) (f : A → Action B) (b : B) (w' : World)
    → continue r f ≡ (ok b, w')
    → (a : A) × (w₁ : World) × (r ≡ (ok a, w₁)) × (f a w₁ ≡ (ok b, w'))
bound (ok a, w) f b w' h = (a, w, refl, h)
bound (err e, w) f b w' h = cc

pub query-ok :
    {A : Type 0} (f : Db → A) (a : A) (w w' : World)
    → query f w ≡ (ok a, w')
    → (a ≡ f w.working) × (w'.working ≡ w.working) × (w'.requests ≡ w.requests)
unfolding query
query-ok f a w w' h = ground arith

pub execute-ok :
    (f : Db → Db) (w w' : World)
    → execute (λ d. ok (f d)) w ≡ (ok tt, w')
    → (w'.working ≡ f w.working) × (w'.requests ≡ w.requests)
unfolding execute
execute-ok f w w' h = ground arith

pub or_raise-ok :
    {A : Type 0} (o : Option A) (e : Error) (a : A) (w w' : World)
    → or_raise o e w ≡ (ok a, w')
    → (o ≡ some a) × (w' ≡ w)
unfolding or_raise pure raise
or_raise-ok none e a w w' h = cc
or_raise-ok (some b) e a w w' h = ground arith

-- A SELECT uses up one fault and changes nothing else.
pub query-world :
    {A : Type 0} (f : Db → A) (a : A) (w w' : World)
    → query f w ≡ (ok a, w')
    → (a ≡ f w.working) × (w' ≡ record w { faults = later w.faults })
unfolding query
query-world f a w w' h = ground arith
