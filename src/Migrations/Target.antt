-- ===== src/Migrations/Target.antt =====
-- The functions of alembic/env.py.
use Prim.Native.String.{◌++◌ as ◌+++◌}
use mathlib.Core.List.{Perm}
use crane_tracker.Base.{
  ◌≡◌, refl, String, Bool, true, false, not, Option, none, some, List, [], ◌∷◌, ◌++◌, ◌&&◌, ◌⊎◌,
  inl, inr, any, all, sym, Bool-cases, map, select, text_eq, eq_iff, if◌then◌else◌, arith,
}
use crane_tracker.Settings.{Settings, is_set, is_in}
use crane_tracker.Errors.{Result, ok, err, unexpected}
use crane_tracker.Migrations.Schema.{Table}
use crane_tracker.Migrations.Ddl.{Catalog, is_installable}
use crane_tracker.Migrations.Versions.{migrations}
use crane_tracker.Migrations.Metadata
use crane_tracker.Migrations.Head.{
  upgrade_all, is_free, head_tables, at_head, upgrade_all-at_head, tables-Perm, with_postgis,
}

-- `target_metadata.tables`
abbrev pub is_declared : String → Bool
is_declared name = any (λ (d : Metadata.Declaration). text_eq d.tablename name) Metadata.metadata

-- The URL is that of the settings' environment.
abbrev pub IsUrlOf : Settings → String → Type 0
IsUrlOf settings url =
    (settings.environment ≡ "test") × (settings.test_database_url ≡ some url)
    ⊎ (is_in ("dev" ∷ "development" ∷ "staging" ∷ "production" ∷ []) settings.environment ≡ true)
      × (url ≡ settings.database_url)

module _ (repr : String → String) where
  abbrev primary_url : Settings → Result String
  primary_url settings =
      if not (is_in ("dev" ∷ "development" ∷ "staging" ∷ "production" ∷ []) settings.environment)
      then err (
          unexpected (
            "Unknown ENVIRONMENT "
            +++ (repr settings.environment
                +++ ("; expected one of "
                    +++ "'dev', 'development', 'staging', 'production', 'test'."))))
      else ok settings.database_url

  abbrev test_url : Option String → Result String
  test_url none = err (unexpected "ENVIRONMENT=test requires TEST_DATABASE_URL to be set.")
  test_url (some url) =
      if not (is_set (some url))
      then err (unexpected "ENVIRONMENT=test requires TEST_DATABASE_URL to be set.")
      else ok url

  test_url_ok :
      (configured : Option String) (url : String)
      → test_url configured ≡ ok url
      → configured ≡ some url
  test_url_ok none url h = cc
  test_url_ok (some u) url h = ground arith

  -- `repr` prints a text with its quotes.
  unfoldable pub resolve_database_url : Settings → Result String
  resolve_database_url settings =
      if text_eq settings.environment "test"
      then test_url settings.test_database_url
      else primary_url settings

  -- A URL that is returned is that of the test database in the environment "test", and that of the
  -- primary database in the four others that are known.
  pub resolve_database_url_ok :
      (settings : Settings) (url : String)
      → resolve_database_url settings ≡ ok url
      → IsUrlOf settings url
  unfolding resolve_database_url
  resolve_database_url_ok settings url h = elim (Bool-cases (text_eq settings.environment "test")) [
    | inl same ↦ inl (
      (eq_iff settings.environment "test").0 same,
      test_url_ok settings.test_database_url url (ground arith),
    )
    | inr other ↦ inr (ground arith, ground arith)
  ]

-- `alembic_helpers.include_object` of GeoAlchemy2, by the name, the type and whether it is reflected
module _ (helper : String → String → Bool → Bool) where
  unfoldable pub include_object : String → String → Bool → Bool
  include_object name obj_type reflected =
      if text_eq obj_type "table" && reflected && not (is_declared name)
      then false
      else helper name obj_type reflected

  undeclared :
      (t : Table) (ds : List Metadata.Declaration)
      → any (λ d. text_eq t.name d.tablename) ds ≡ false
      → any (λ d. text_eq d.tablename t.name) ds ≡ false
  undeclared t [] h = refl
  undeclared t (d ∷ ds) h = elim (Bool-cases (text_eq d.tablename t.name)) [
    | inr other ↦ ground (arith, undeclared t ds)
    | inl same ↦
        let back = (eq_iff t.name d.tablename).1 (sym ((eq_iff d.tablename t.name).0 same)) in
        ground arith
  ]

  first_row :
      (t : Table) (rows : List Table) (ds : List Metadata.Declaration)
      → all (λ d. not (any (λ r. text_eq r.name d.tablename) (t ∷ rows))) ds ≡ true
      → (any (λ d. text_eq t.name d.tablename) ds ≡ false)
        × (all (λ d. not (any (λ r. text_eq r.name d.tablename) rows)) ds ≡ true)
  first_row t rows [] h = (refl, refl)
  first_row t rows (d ∷ ds) h =
      let (a, b) = first_row t rows ds (ground arith) in (ground arith, ground arith)

  -- the reflected tables that autogenerate compares
  abbrev compared : List Table → List Table
  compared = select λ t. include_object t.name "table" true

  others_excluded :
      (rows : List Table)
      → all (λ d. not (any (λ r. text_eq r.name d.tablename) rows)) Metadata.metadata ≡ true
      → compared rows ≡ []
  unfolding include_object
  others_excluded [] h = refl
  others_excluded (t ∷ rows) h =
      let (own, rest) = first_row t rows Metadata.metadata h in
      let hidden : is_declared t.name ≡ false = undeclared t Metadata.metadata own in
      let others = others_excluded rows rest in ground arith

  -- Of the tables of a database that was upgraded to the head, autogenerate compares those that the
  -- models declare and no others, whatever tables were there before
  -- and whatever tables PostGIS installs, if GeoAlchemy2 lets them pass.
  pub include_object-upgrade_all :
      (installs : String → List Table) (c : Catalog)
      → is_installable installs "postgis" c ≡ true
      → is_free (with_postgis installs c) ≡ true
      → all (λ d. helper d.tablename "table" true) Metadata.metadata ≡ true
      → (c' : Catalog) × (upgrade_all installs migrations c ≡ some c')
        × Perm (compared c'.tables) (map Metadata.table_of Metadata.metadata)
  unfolding include_object
  include_object-upgrade_all installs c new free passes =
      let others = others_excluded (with_postgis installs c).tables (ground arith) in
      let same : compared (head_tables ++ (with_postgis installs c).tables) ≡ head_tables ++ [] =
        ground arith in
      (
        at_head (with_postgis installs c),
        upgrade_all-at_head installs c new free,
        rw same (tables-Perm []),
      )
