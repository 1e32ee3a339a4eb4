-- ===== src/Exec/Keeps/Defs.antt =====
-- What it means that an action keeps an invariant of the tables.
use crane_tracker.Base.{◌≡◌, Bool, true, false, arith}
use crane_tracker.Models.{Db}
use crane_tracker.Errors.{Result, ok, err}
use crane_tracker.Exec.{Action, World, delivered, ended, rollback}

-- `P` of what other sessions see and, unless an exception is on its way, of this transaction.
abbrev pub Holds : {A : Type 0} → (Db → Type 0) → Result A × World → Type 0
Holds P (ok _, w) = P w.committed × P w.working
Holds P (err _, w) = P w.committed × Unit {0}

-- What a result says of the tables that it was read from.
abbrev pub Finds : {A : Type 0} → (A → Db → Type 0) → Result A × World → Type 0
Finds Q (ok a, w) = Q a w.working
Finds Q (err _, w) = Unit {0}

-- From tables with `P`, `m` ends in tables with `P`, whichever statements fail.
pub record Keeps {A : Type 0} (P : Db → Type 0) (m : Action A) : Type 0 where
  pub at : (w : World) → P w.committed → P w.working → Holds P (m w)

-- The same from a transaction that was left in any state, as a handler is run.
pub record Recovers {A : Type 0} (P : Db → Type 0) (m : Action A) : Type 0 where
  pub at : (w : World) → P w.committed → Holds P (m w)

-- What other sessions see has `P` in any case.
pub Holds-committed :
    {A : Type 0} (P : Db → Type 0) (r : Result A) (w : World) → Holds P (r, w) → P w.committed
Holds-committed P (ok a) w h = h.0
Holds-committed P (err e) w h = h.0

pub delivered-ok : (b : Bool) (r : Result Db) (d : Db) → delivered b r ≡ ok d → r ≡ ok d
delivered-ok b r d h = ground arith

pub delivered-Holds :
    {A : Type 0} (P : Db → Type 0) (b : Bool) (r : Result A) (w : World)
    → P w.committed
    → P w.working
    → Holds P (delivered b r, w)
delivered-Holds P true r w h k = (h, tt)
delivered-Holds P false (ok a) w h k = (h, k)
delivered-Holds P false (err e) w h k = (h, tt)

pub ended-Holds :
    (P : Db → Type 0) (b : Bool) (w : World) → P w.committed → P w.working → Holds P (ended b w)
ended-Holds P true w h k = (h, tt)
ended-Holds P false w h k = (k, k)

pub request-Holds :
    {A : Type 0} (P : Db → Type 0) (r : Result A × World)
    → Holds P r
    → Holds P (r.0, (rollback r.1).1)
unfolding rollback
request-Holds P (ok a, w) h = (h.0, h.0)
request-Holds P (err e, w) h = (h.0, tt)
