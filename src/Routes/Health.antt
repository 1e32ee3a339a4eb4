-- ===== src/Routes/Health.antt =====
-- The handler of app/routes/health.py.
use crane_tracker.Base.{String, List, [], ◌∷◌}

abbrev healthcheck : List (String × String)
healthcheck = ("status", "ok") ∷ []
