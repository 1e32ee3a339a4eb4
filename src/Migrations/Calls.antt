-- ===== src/Migrations/Calls.antt =====
-- The script alembic/env.py, with what it calls of Alembic, of ConfigParser, of logging and of
-- SQLAlchemy as parameters. What it does is the list of these calls.
use crane_tracker.Base.{
  String, Bool, true, false, Option, none, some, List, [], ◌∷◌, ◌++◌, if◌then◌else◌,
}
use crane_tracker.Settings.{Settings}
use crane_tracker.Errors.{Result, ok, err, unexpected}
use crane_tracker.Migrations.Metadata
use crane_tracker.Migrations.Target.{resolve_database_url, include_object}

pub record Alembic : Type 0 where
  -- `repr` of a text, and `alembic_helpers.include_object` of GeoAlchemy2
  pub repr : String → String
  pub helper : String → String → Bool → Bool
  -- whether `set_main_option` takes a text for an option, and what `get_section` then gives for it
  pub takes : String → Bool
  pub read_back : String → String
  pub file_config : String → Result (Unit {0})
  pub connects : String → Result (Unit {0})
  -- `context.run_migrations()` in its transaction
  pub migrates : Result (Unit {0})

-- the arguments of `context.configure`; `render_item` is GeoAlchemy2's in both modes
pub record Configuration : Type 0 where
  pub url : Option String
  pub connection : Option String
  pub target_metadata : List Metadata.Declaration
  pub literal_binds : Bool
  pub paramstyle : Option String
  pub include_object : String → String → Bool → Bool

pub data Call : Type 0 where
  set_main_option : String → Call
  file_config : String → Call
  connect : String → Call
  configure : Configuration → Call
  run_migrations : Call

-- How a part of the script ends, and its calls.
abbrev pub Script : Type 0 → Type 0
Script A = Result A × List Call

abbrev after : {A : Type 0} → List Call → Script A → Script A
after cs (r, ds) = (r, cs ++ ds)

infixl 5 ◌>>=◌ ◌>>◌
abbrev pub ◌>>=◌ : {A B : Type 0} → Script A → (A → Script B) → Script B
(ok a, cs) >>= f = after cs (f a)
(err e, cs) >>= f = (err e, cs)

abbrev pub ◌>>◌ : {A B : Type 0} → Script A → Script B → Script B
m >> n = m >>= λ _. n

abbrev call : Call → Result (Unit {0}) → Script (Unit {0})
call c r = (r, c ∷ [])

module _ (alembic : Alembic) where
  unfoldable pub run_migrations_offline : Settings → Script (Unit {0})
  run_migrations_offline settings = do
    url ← (resolve_database_url alembic.repr settings, [])
    call
        (configure (record {
          url = some url;
          connection = none;
          target_metadata = Metadata.metadata;
          literal_binds = true;
          paramstyle = some "named";
          include_object = include_object alembic.helper;
        }))
        (ok tt)
    call run_migrations alembic.migrates

  -- the engine is that of the option `sqlalchemy.url`
  unfoldable pub run_migrations_online : String → Script (Unit {0})
  run_migrations_online option = do
    call (connect option) (alembic.connects option)
    call
        (configure (record {
          url = none;
          connection = some option;
          target_metadata = Metadata.metadata;
          literal_binds = false;
          paramstyle = none;
          include_object = include_object alembic.helper;
        }))
        (ok tt)
    call run_migrations alembic.migrates

  -- ConfigParser raises a ValueError for a text with a `%` that begins no interpolation.
  abbrev pub set_url : String → Script (Unit {0})
  set_url url =
      call (set_main_option url)
        (if alembic.takes url then ok tt else err (unexpected "invalid interpolation syntax"))

  abbrev pub set_logging : Option String → Script (Unit {0})
  set_logging none = (ok tt, [])
  set_logging (some name) = call (file_config name) (alembic.file_config name)

  unfoldable pub run_migrations_in : Bool → Settings → String → Script (Unit {0})
  unfolding run_migrations_offline run_migrations_online
  run_migrations_in offline settings url =
      if offline
      then run_migrations_offline settings
      else run_migrations_online (alembic.read_back url)

  -- the statements of the module, for a context that is offline or online
  unfoldable pub env_py : Settings → Option String → Bool → Script (Unit {0})
  unfolding run_migrations_in
  env_py settings config_file_name offline = do
    url ← (resolve_database_url alembic.repr settings, [])
    set_url url
    set_logging config_file_name
    run_migrations_in offline settings url
