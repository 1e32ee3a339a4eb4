-- ===== src/Database/Sessions.antt =====
-- The profiles and the scope of a session (app/core/database.py).
use crane_tracker.Base.{
  ℕ, ◌≡◌, refl, String, Bool, true, false, ◌⊎◌, inl, inr, if◌then◌else◌, text_eq, Bool-cases,
}
use crane_tracker.Settings.{Settings}
use crane_tracker.Errors.{Result, ok, err, Error, unexpected}
use crane_tracker.Exec.{Action, World, lift, raise, rescue, caught, rollback, request, ◌>>=◌, ◌>>◌}

-- the arguments of `create_engine`
pub record Engine : Type 0 where
  pub database_url : String
  pub pool_size : ℕ
  pub max_overflow : ℕ
  pub pool_pre_ping : Bool

abbrev webserver_pool_size : ℕ
webserver_pool_size = 10

abbrev webserver_max_overflow : ℕ
webserver_max_overflow = 20

abbrev webserver_pool_pre_ping : Bool
webserver_pool_pre_ping = true

abbrev worker_pool_size : ℕ
worker_pool_size = 2

abbrev worker_max_overflow : ℕ
worker_max_overflow = 4

abbrev worker_pool_pre_ping : Bool
worker_pool_pre_ping = true

unfoldable pub sessionmaker_for : Settings → String → Result Engine
sessionmaker_for settings profile =
    if text_eq profile "webserver"
    then ok (record {
      database_url = settings.database_url;
      pool_size = webserver_pool_size;
      max_overflow = webserver_max_overflow;
      pool_pre_ping = webserver_pool_pre_ping;
    })
    else if text_eq profile "worker"
    then ok (record {
      database_url = settings.database_url;
      pool_size = worker_pool_size;
      max_overflow = worker_max_overflow;
      pool_pre_ping = worker_pool_pre_ping;
    })
    else err (unexpected "Invalid session profile")

module _ {A : Type 0} where
  -- `except Exception as e: session.rollback(); raise e`
  unfoldable pub rolled_back : Error → Action A
  rolled_back e = rollback >> raise e

  -- The session is closed whether its body returns or raises, which ends its transaction.
  unfoldable pub session_scope : Settings → String → Action A → Action A
  unfolding rolled_back
  session_scope settings profile body =
      lift (sessionmaker_for settings profile) >> request (rescue body rolled_back)

  caught-rolled_back :
      (r : Result A × World)
      → ((caught r rolled_back).0 ≡ r.0) × ((caught r rolled_back).1.committed ≡ r.1.committed)
  unfolding rolled_back ◌>>=◌ rollback raise
  caught-rolled_back (ok a, w) = (refl, refl)
  caught-rolled_back (err e, w) = (refl, refl)

  -- A scope with one of the two profiles gives what its body gives, returned or raised; what the body
  -- has committed stays, and all else is undone. With another profile it raises and runs nothing.
  pub session_scope_ends :
      (settings : Settings) (profile : String) (body : Action A) (w : World)
      → ((session_scope settings profile body w).0 ≡ (body w).0)
          × ((session_scope settings profile body w).1.committed ≡ (body w).1.committed)
          × ((session_scope settings profile body w).1.working ≡ (body w).1.committed)
        ⊎ (text_eq profile "webserver" ≡ false)
          × (text_eq profile "worker" ≡ false)
          × (session_scope settings profile body w
              ≡ (err (unexpected "Invalid session profile"), w))
  unfolding session_scope sessionmaker_for ◌>>=◌ lift request rescue rollback
  session_scope_ends settings profile body w =
      let (same, kept) = caught-rolled_back (body w) in
      elim (Bool-cases (text_eq profile "webserver")) [
        | inl web ↦ rw web (inl (same, kept, kept))
        | inr no_web ↦ elim (Bool-cases (text_eq profile "worker")) [
          | inl worker ↦ rw (no_web, worker) (inl (same, kept, kept))
          | inr no_worker ↦ rw (no_web, no_worker) (inr (refl, refl, refl))
        ]
      ]
