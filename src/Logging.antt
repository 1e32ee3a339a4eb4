-- ===== src/Logging.antt =====
-- The configuration of logging (app/core/logging.py) and the level that app/main.py and
-- app/worker/main.py ask for.
use crane_tracker.Base.{
  ◌∙◌, ◌≡◌, refl, String, Bool, true, not, Option, none, some, List, [], ◌∷◌, ◌++◌, ◌⊎◌, inl, inr,
  text_eq, if◌then◌else◌, Bool-cases, eq_iff, arith,
}
use crane_tracker.Settings.{Settings, UrlLibrary, is_set, is_in}
use crane_tracker.Errors.{Result, ok, err, unexpected}

-- A handler of the root logger: its stream, the format of its lines, the fields that the formatter
-- renames, and whether it has the filter for the id of the request.
pub record LogHandler : Type 0 where
  pub stream : String
  pub format : String
  pub rename_fields : List (String × String)
  pub correlated : Bool

-- What `logging` keeps: the root logger, and the levels of the others by their names.
pub record Loggers : Type 0 where
  pub handlers : List LogHandler
  pub level : String
  pub levels : List (String × String)

-- `CorrelationIdFilter.filter`: the id that it sets on a record, which it always lets through
unfoldable pub filter : Option String → String × Bool
filter none = ("-", true)
filter (some id) = (if is_set (some id) then id else "-", true)

-- `logging.getLevelNamesMapping()`
abbrev pub valid_levels : List String
valid_levels =
    "CRITICAL" ∷ "FATAL" ∷ "ERROR" ∷ "WARN" ∷ "WARNING" ∷ "INFO" ∷ "DEBUG" ∷ "NOTSET" ∷ []

abbrev pub json_handler : LogHandler
json_handler = record {
  stream = "stdout";
  format = "%(asctime)s %(levelname)s %(request_id)s %(name)s %(funcName)s %(lineno)d %(message)s";
  rename_fields = ("asctime", "timestamp") ∷ ("levelname", "level") ∷ [];
  correlated = true;
}

-- `logging.getLogger(name).setLevel(level)`
abbrev pub set_level : String → String → List (String × String) → List (String × String)
set_level name level [] = (name, level) ∷ []
set_level name level ((n, l) ∷ rest) =
    if text_eq n name then (n, level) ∷ rest else (n, l) ∷ set_level name level rest

abbrev pub level_of : String → List (String × String) → Option String
level_of name [] = none
level_of name ((n, l) ∷ rest) = if text_eq n name then some l else level_of name rest

abbrev pub quiet_loggers : List String
quiet_loggers =
    "httpx" ∷ "httpcore" ∷ "sqlalchemy.engine" ∷ "uvicorn.access" ∷ "python_multipart" ∷ "botocore"
    ∷ "boto3" ∷ "urllib3" ∷ "PIL" ∷ "s3transfer" ∷ []

unfoldable pub quieten : List String → List (String × String) → List (String × String)
quieten [] levels = levels
quieten (name ∷ names) levels = quieten names (set_level name "WARNING" levels)

-- `upper` is `str.upper`, `invalid` the text of the ValueError.
unfoldable pub configure_logging :
    (String → String) → (String → String) → String → Loggers → Result (Unit {0}) × Loggers
unfolding quieten
configure_logging upper invalid level l =
    if not (is_in valid_levels (upper level))
    then (err (unexpected (invalid (upper level))), l)
    else (
      ok tt,
      record {
        handlers = [] ++ json_handler ∷ [];
        level = upper level;
        levels = quieten quiet_loggers l.levels;
      },
    )

unfoldable pub log_level : UrlLibrary → Settings → String
log_level library settings =
    if is_in ("dev" ∷ "development" ∷ []) (library.lower settings.environment)
    then "DEBUG"
    else "INFO"

set_level-same :
    (name level : String) (levels : List (String × String))
    → level_of name (set_level name level levels) ≡ some level
set_level-same name level [] = ground (arith, eq_iff name name)
set_level-same name level ((n, l) ∷ rest) = ground (arith, set_level-same name level rest)

-- A level is set for one name alone.
set_level-level_of :
    (name other level : String) (levels : List (String × String))
    → (level_of name (set_level other level levels) ≡ some level)
      ⊎ (level_of name (set_level other level levels) ≡ level_of name levels)
set_level-level_of name other level [] = elim (Bool-cases (text_eq other name)) [
  | inl same ↦ rw same (inl refl)
  | inr apart ↦ rw apart (inr refl)
]
set_level-level_of name other level ((n, l) ∷ rest) = elim (Bool-cases (text_eq n other)) [
  | inl found ↦ elim (Bool-cases (text_eq n name)) [
    | inl same ↦ rw (found, same) (inl refl)
    | inr apart ↦ rw (found, apart) (inr refl)
  ]
  | inr missed ↦ elim (Bool-cases (text_eq n name)) [
    | inl same ↦ rw (missed, same) (inr refl)
    | inr apart ↦ rw (missed, apart) (set_level-level_of name other level rest)
  ]
]

quieten-kept :
    (name : String) (names : List String) (levels : List (String × String))
    → level_of name levels ≡ some "WARNING"
    → level_of name (quieten names levels) ≡ some "WARNING"
unfolding quieten
quieten-kept name [] levels h = h
quieten-kept name (n ∷ names) levels h =
    quieten-kept name names (set_level n "WARNING" levels)
      (elim (set_level-level_of name n "WARNING" levels) [ inl set ↦ set | inr kept ↦ kept ∙ h ])

quieten-level :
    (name : String) (names : List String) (levels : List (String × String))
    → is_in names name ≡ true
    → level_of name (quieten names levels) ≡ some "WARNING"
unfolding quieten
quieten-level name [] levels h = cc
quieten-level name (n ∷ names) levels h = elim (Bool-cases (text_eq name n)) [
  | inr apart ↦ quieten-level name names (set_level n "WARNING" levels) (ground arith)
  | inl same ↦
      let is_name = (eq_iff name n).0 same in
      quieten-kept name names (set_level n "WARNING" levels)
        (rw is_name (set_level-same n "WARNING" levels))
]

-- If `upper` leaves the two levels of the program as they are, then its configuration of logging
-- does not raise, and whatever was configured before, the root logger has the one handler of JSON
-- lines with the id of the request and the level that was asked for, and each of the libraries'
-- loggers that are listed has the level WARNING.
configure_logging-log_level :
    (upper invalid : String → String) (library : UrlLibrary) (settings : Settings) (l : Loggers)
    (name : String)
    → upper "DEBUG" ≡ "DEBUG"
    → upper "INFO" ≡ "INFO"
    → is_in quiet_loggers name ≡ true
    → (l' : Loggers) × (configure_logging upper invalid (log_level library settings) l
        ≡ (ok tt, l'))
      × (l'.handlers ≡ json_handler ∷ [])
      × (l'.level ≡ log_level library settings)
      × (level_of name l'.levels ≡ some "WARNING")
unfolding configure_logging log_level
configure_logging-log_level upper invalid library settings l name debug info listed =
    let quiet = quieten-level name quiet_loggers l.levels listed in
    elim (Bool-cases (is_in ("dev" ∷ "development" ∷ []) (library.lower settings.environment))) [
      | inl dev ↦ rw (dev, debug) (_, refl, refl, refl, quiet)
      | inr other ↦ rw (other, info) (_, refl, refl, refl, quiet)
    ]
