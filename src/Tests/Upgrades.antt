-- ===== src/Tests/Upgrades.antt =====
-- The theorems on the migrations.
use mathlib.Core.List.{Perm}
use crane_tracker.Base.{
  false, String, ap, arith, ◌≡◌, refl, true, none, some, List, [], ◌∷◌, ◌++◌, ◌⊎◌, map, select,
}
use crane_tracker.Errors.{Error, ok, err, ok-injective}
use crane_tracker.Migrations.Ddl.{Catalog, run, apply, has, own_tables}
use crane_tracker.Migrations.Versions
use crane_tracker.Migrations.Metadata
use crane_tracker.Migrations.Schema.{Table}
use crane_tracker.Migrations.Head.{upgrade_all, upgrade_all-metadata}
use crane_tracker.Migrations.Downgrade.{
  Version, script, enums_of, downgrade-upgrade, upgrade-downgrade-upgrade,
}
use crane_tracker.Migrations.Inverse.{relations, restored}
use crane_tracker.Migrations.Target.{
  IsUrlOf, resolve_database_url, include_object, include_object-upgrade_all,
}
use crane_tracker.Migrations.Calls.{Alembic, env_py}
use crane_tracker.Migrations.Script.{targets, is_literal, targets-env_py}
use crane_tracker.Tests.Values.{settings}

-- The one table of a database on which PostGIS is installed.
abbrev spatial_ref_sys : Table
spatial_ref_sys = record {
  name = "spatial_ref_sys";
  fields = [];
  primary_key = "srid" ∷ [];
  foreign_keys = [];
  uniques = [];
  checks = [];
}

abbrev postgis : Catalog
postgis = record {
  extensions = "postgis" ∷ [];
  types = [];
  tables = spatial_ref_sys ∷ [];
  indexes = [];
}

abbrev installs : String → List Table
installs _ = spatial_ref_sys ∷ []

-- a database on which PostGIS is not installed yet
abbrev blank : Catalog
blank = record { extensions = []; types = []; tables = []; indexes = [] }

upgrade_all-metadata_example :
    (c' : Catalog) × (upgrade_all installs Versions.migrations blank ≡ some c')
    × Perm c'.tables (
        map Metadata.table_of Metadata.metadata
        ++ (own_tables installs "postgis" blank ++ blank.tables))
    × Perm c'.indexes (Metadata.indexes Metadata.metadata ++ blank.indexes)
    × (c'.types ≡ "job_operation" ∷ "job_status" ∷ "crane_photo_status" ∷ blank.types)
    × (has "postgis" c'.extensions ≡ true)
upgrade_all-metadata_example = upgrade_all-metadata installs blank refl refl

abbrev with_crane : Catalog
with_crane = record postgis {
  tables = Versions.crane_table ∷ postgis.tables;
  indexes = Versions.cranes_location ∷ [];
}

abbrev with_photo : Catalog
with_photo = record with_crane {
  types = "crane_photo_status" ∷ [];
  tables = Versions.crane_photo_table ∷ with_crane.tables;
  indexes = Versions.photo_crane_id ∷ with_crane.indexes;
}

abbrev without_photo : Catalog
without_photo = record with_crane { types = "crane_photo_status" ∷ [] }

adds_photo :
    run installs (script Version.add_crane_photo_table).upgrade with_crane ≡ some with_photo
unfolding run apply
adds_photo = refl

removes_photo :
    run installs (script Version.add_crane_photo_table).downgrade with_photo ≡ some without_photo
unfolding run apply
removes_photo = refl

downgrade-upgrade_example :
    restored (run installs (script Version.add_crane_photo_table).downgrade with_photo)
    ≡ some (relations with_crane)
downgrade-upgrade_example =
    downgrade-upgrade installs Version.add_crane_photo_table with_crane with_photo refl refl
      adds_photo

upgrade-downgrade-upgrade_example :
    (enums_of (script Version.add_crane_photo_table).upgrade ≡ [])
    ⊎ (run installs (script Version.add_crane_photo_table).upgrade without_photo ≡ none)
upgrade-downgrade-upgrade_example =
    upgrade-downgrade-upgrade installs Version.add_crane_photo_table with_crane with_photo
      without_photo adds_photo removes_photo

abbrev alembic : Alembic
alembic = record {
  repr = λ s. s;
  helper = λ _ _ _. true;
  takes = λ _. true;
  read_back = λ s. s;
  file_config = λ _. ok tt;
  connects = λ _. ok tt;
  migrates = ok tt;
}

resolves : (s : String) → resolve_database_url (λ s. s) settings ≡ ok s → is_literal s ≡ true
unfolding resolve_database_url
resolves s h = ground (arith, ap is_literal (ok-injective h))

targets-env_py_example :
    ((e : Error) × ((env_py alembic settings (some "alembic.ini") false).0 ≡ err e)
      × (targets (env_py alembic settings (some "alembic.ini") false).1 ≡ []))
    ⊎ ((url : String) × IsUrlOf settings url
        × (targets (env_py alembic settings (some "alembic.ini") false).1 ≡ url ∷ []))
targets-env_py_example =
    targets-env_py alembic settings (some "alembic.ini") false (λ s h. refl) resolves

include_object-upgrade_all_example :
    (c' : Catalog) × (upgrade_all installs Versions.migrations postgis ≡ some c')
    × Perm
        (select (λ t. include_object (λ _ _ _. true) t.name "table" true) c'.tables)
        (map Metadata.table_of Metadata.metadata)
include_object-upgrade_all_example =
    include_object-upgrade_all (λ _ _ _. true) installs postgis refl refl refl
