-- ===== src/Migrations/Script.antt =====
-- The databases that alembic/env.py runs on.
use Prim.Native.String as Text
use Prim.Native.Char.{code}
use crane_tracker.Base.{
  ◌≡◌, refl, sym, ap, subst, ◌∙◌, String, Bool, true, false, not, Option, none, some, List, [], ◌∷◌,
  ◌&&◌, ◌⊎◌, inl, inr, if◌then◌else◌, ◌==◌, arith,
}
use crane_tracker.Settings.{Settings}
use crane_tracker.Errors.{Result, ok, err, Error}
use crane_tracker.Migrations.Target.{resolve_database_url, resolve_database_url_ok, IsUrlOf}
use crane_tracker.Migrations.Calls.{
  Alembic, Call, connect, configure, set_main_option, file_config, run_migrations, set_logging,
  Script, ◌>>◌, ◌>>=◌, set_url, run_migrations_offline, run_migrations_online, run_migrations_in,
  env_py,
}

-- the databases that the calls are for
abbrev pub targets : List Call → List String
targets [] = []
targets (connect url ∷ cs) = url ∷ targets cs
targets (configure c ∷ cs) = elim c.url [ none ↦ targets cs | some url ↦ url ∷ targets cs ]
targets (set_main_option _ ∷ cs) = targets cs
targets (file_config _ ∷ cs) = targets cs
targets (run_migrations ∷ cs) = targets cs

-- no `%` in the text
abbrev pub is_literal : String → Bool
is_literal Text.[] = true
is_literal (Text.◌∷◌ c s) = not (code c == b'%') && is_literal s

module _ (alembic : Alembic) (settings : Settings) (config_file_name : Option String) where
  offline_target :
      (url : String)
      → resolve_database_url alembic.repr settings ≡ ok url
      → targets (run_migrations_offline alembic settings).1 ≡ url ∷ []
  unfolding run_migrations_offline
  offline_target url resolved = rw resolved refl

  online_target : (url : String) → targets (run_migrations_online alembic url).1 ≡ url ∷ []
  unfolding run_migrations_online
  online_target url = ground arith

  mode_target :
      (offline : Bool) (url : String)
      → resolve_database_url alembic.repr settings ≡ ok url
      → alembic.read_back url ≡ url
      → targets (run_migrations_in alembic offline settings url).1 ≡ url ∷ []
  unfolding run_migrations_in
  mode_target true url resolved same = offline_target url resolved
  mode_target false url resolved same =
      ap (λ u. targets (run_migrations_online alembic u).1) same ∙ online_target url

  -- A script that raises has asked for no database, or for this one alone.
  abbrev Ends : String → Script (Unit {0}) → Type 0
  Ends url r = ((e : Error) × (r.0 ≡ err e) × (targets r.1 ≡ [])) ⊎ (targets r.1 ≡ url ∷ [])

  option_set :
      (taken : Bool) (option url : String) (e : Error) (rest : Script (Unit {0}))
      → Ends url rest
      → Ends url ((if taken then ok tt else err e, set_main_option option ∷ []) >> rest)
  option_set true option url e (r, cs) ends = ends
  option_set false option url e rest ends = inl (e, refl, refl)

  configured :
      (name url : String) (result : Result (Unit {0})) (rest : Script (Unit {0}))
      → targets rest.1 ≡ url ∷ []
      → Ends url ((result, file_config name ∷ []) >> rest)
  configured name url (ok _) (r, cs) one = inr one
  configured name url (err e) rest one = inl (e, refl, refl)

  logged :
      (name : Option String) (url : String) (rest : Script (Unit {0}))
      → targets rest.1 ≡ url ∷ []
      → Ends url (set_logging alembic name >> rest)
  logged none url (r, cs) one = inr one
  logged (some name) url rest one = configured name url (alembic.file_config name) rest one

  one_target :
      (offline : Bool) (url : String)
      → resolve_database_url alembic.repr settings ≡ ok url
      → alembic.read_back url ≡ url
      → Ends url (env_py alembic settings config_file_name offline)
  unfolding env_py
  one_target offline url resolved same =
      let mode : String → Script (Unit {0}) = run_migrations_in alembic offline settings in
      let logs : Script (Unit {0}) = set_logging alembic config_file_name in
      subst
        (λ (r : Result String).
          Ends url ((r, []) >>= λ u. set_url alembic u >>= λ _. logs >> mode u))
        (sym resolved)
        (option_set (alembic.takes url) url url _ (logs >> mode url)
          (logged config_file_name url (mode url) (mode_target offline url resolved same)))

  no_target :
      (offline : Bool) (e : Error)
      → resolve_database_url alembic.repr settings ≡ err e
      → env_py alembic settings config_file_name offline ≡ (err e, [])
  unfolding env_py
  no_target offline e refused = rw refused refl

  -- If a text without `%` is read back as it was set, and the URL of the environment has none, then,
  -- whether the context is offline or online, either the script raises before it is at a database, or
  -- its calls are for one database, that of the environment: the test database in "test", and the
  -- primary database in the four others that are known.
  pub targets-env_py :
      (offline : Bool)
      → ((s : String) → is_literal s ≡ true → alembic.read_back s ≡ s)
      → ((s : String) → resolve_database_url alembic.repr settings ≡ ok s → is_literal s ≡ true)
      → ((e : Error) × ((env_py alembic settings config_file_name offline).0 ≡ err e)
          × (targets (env_py alembic settings config_file_name offline).1 ≡ []))
        ⊎ ((url : String) × IsUrlOf settings url
            × (targets (env_py alembic settings config_file_name offline).1 ≡ url ∷ []))
  targets-env_py offline reads_back literal = go (resolve_database_url alembic.repr settings) refl
    where
      go :
          (r : Result String)
          → resolve_database_url alembic.repr settings ≡ r
          → ((e : Error) × ((env_py alembic settings config_file_name offline).0 ≡ err e)
              × (targets (env_py alembic settings config_file_name offline).1 ≡ []))
            ⊎ ((url : String) × IsUrlOf settings url
                × (targets (env_py alembic settings config_file_name offline).1 ≡ url ∷ []))
      go (err e) refused =
          let ends = no_target offline e refused in
          inl (e, ap (λ r. r.0) ends, ap (λ r. targets r.1) ends)
      go (ok url) resolved =
          let at_url = resolve_database_url_ok alembic.repr settings url resolved in
          elim (one_target offline url resolved (reads_back url (literal url resolved))) [
            | inl raised ↦ inl raised
            | inr one ↦ inr (url, at_url, one)
          ]

  set_logging_ok :
      ((name : String) → alembic.file_config name ≡ ok tt)
      → ((set_logging alembic config_file_name).0 ≡ ok tt)
        × (targets (set_logging alembic config_file_name).1 ≡ [])
  set_logging_ok logs =
      elim config_file_name
        as (λ f. ((set_logging alembic f).0 ≡ ok tt) × (targets (set_logging alembic f).1 ≡ [])) [
          | none ↦ (refl, refl)
          | some name ↦ (logs name, refl)
        ]

  -- Where the libraries take the URL and the database answers, the script runs the migrations on it,
  -- in either mode, and ends as they do.
  env_py_runs :
      (offline : Bool) (url : String)
      → resolve_database_url alembic.repr settings ≡ ok url
      → alembic.takes url ≡ true
      → alembic.read_back url ≡ url
      → ((name : String) → alembic.file_config name ≡ ok tt)
      → alembic.connects url ≡ ok tt
      → ((env_py alembic settings config_file_name offline).0 ≡ alembic.migrates)
        × (targets (env_py alembic settings config_file_name offline).1 ≡ url ∷ [])
  unfolding env_py run_migrations_in run_migrations_online run_migrations_offline
  env_py_runs true url resolved takes same logs connects =
      ground (arith, resolved, takes, same, connects, set_logging_ok logs)
  env_py_runs false url resolved takes same logs connects =
      ground (arith, resolved, takes, same, connects, set_logging_ok logs)
