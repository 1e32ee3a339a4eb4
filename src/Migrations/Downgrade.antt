-- ===== src/Migrations/Downgrade.antt =====
-- A downgrade after its upgrade.
use crane_tracker.Base.{
  ◌≡◌, refl, String, Bool, true, false, not, none, some, List, [], ◌∷◌, ◌++◌, ◌&&◌, ◌⊎◌, inl, inr,
  any, text_eq, arith,
}
use crane_tracker.Migrations.Schema.{Table, Index}
use crane_tracker.Migrations.Ddl.{
  Catalog, Operation, Migration, run, apply, has, has_table, is_geometry, enums, is_installable,
  with_extension,
}
use crane_tracker.Migrations.Inverse.{
  is_sound, relations, restored, drop_created, drop_indexed, drop_two,
}
use crane_tracker.Migrations.Extensions.{drop_installed}
use crane_tracker.Migrations.Versions

-- A file of alembic/versions.
pub data Version : Type 0 where
  add_extensions initial_crane_table adding_gone_report_table add_crane_photo_table
        create_outbox_job_table add_admin_accounts add_photo_reports :
      Version

abbrev pub script : Version → Migration
script Version.add_extensions = Versions.add_extensions
script Version.initial_crane_table = Versions.initial_crane_table
script Version.adding_gone_report_table = Versions.adding_gone_report_table
script Version.add_crane_photo_table = Versions.add_crane_photo_table
script Version.create_outbox_job_table = Versions.create_outbox_job_table
script Version.add_admin_accounts = Versions.add_admin_accounts
script Version.add_photo_reports = Versions.add_photo_reports

-- What the downgrade needs: for that of the extensions, that PostGIS was not there before its upgrade.
abbrev pub is_removable : Version → Catalog → Bool
is_removable Version.add_extensions c =
    not (has "postgis" c.extensions) && not (any (λ t. any is_geometry t.fields) c.tables)
is_removable _ c = true

-- the enum types that a migration creates
abbrev pub enums_of : List Operation → List String
enums_of [] = []
enums_of (Operation.create_table t ∷ rest) = enums t.fields ++ enums_of rest
enums_of (_ ∷ rest) = enums_of rest

module _ (installs : String → List Table) where
  -- A migration that creates a table, with no index or with one, and drops them again.
  module _ (t : Table) (c c' : Catalog) (sound : is_sound c ≡ true) where
    one_table :
        run installs (Operation.create_table t ∷ []) c ≡ some c'
        → restored (run installs (Operation.drop_table t.name ∷ []) c') ≡ some (relations c)
    unfolding run apply
    one_table h =
        let new : has_table t.name c ≡ false = ground arith in
        let shape : c' ≡ record c { types = enums t.fields ++ c.types; tables = t ∷ c.tables } =
          ground arith in
        rw shape (drop_created installs t [] c (enums t.fields ++ c.types) refl sound new)

    module _ (own : Index)
        (made : run installs (Operation.create_table t ∷ Operation.create_index own ∷ []) c
          ≡ some c') where
      with_index : c' ≡ record c {
        types = enums t.fields ++ c.types;
        tables = t ∷ c.tables;
        indexes = own ∷ c.indexes;
      }
      unfolding run apply
      with_index = ground arith

      new_table : has_table t.name c ≡ false
      unfolding run apply
      new_table = ground arith

      new_index : any (λ i. text_eq i.name own.name) c.indexes ≡ false
      unfolding run apply
      new_index = ground arith

      indexed_table :
          restored
            (run installs (Operation.drop_index own.name ∷ Operation.drop_table t.name ∷ []) c')
          ≡ some (relations c)
      indexed_table =
          rw with_index
            (drop_indexed installs t own c (enums t.fields ++ c.types) sound new_table new_index)

      table_of_index :
          text_eq own.table t.name ≡ true
          → restored (run installs (Operation.drop_table t.name ∷ []) c') ≡ some (relations c)
      table_of_index is_own = rw with_index (
          drop_created installs t (own ∷ []) c (enums t.fields ++ c.types) (rw is_own refl) sound
            new_table)

  -- In a catalog whose indexes and foreign keys are of tables that are there, and, for the
  -- migration that installs PostGIS, without PostGIS and its columns: an upgrade that succeeds can be downgraded, and the tables and the
  -- indexes are then what they were.
  pub downgrade-upgrade :
      (v : Version) (c c' : Catalog)
      → is_sound c ≡ true
      → is_removable v c ≡ true
      → run installs (script v).upgrade c ≡ some c'
      → restored (run installs (script v).downgrade c') ≡ some (relations c)
  unfolding run apply
  downgrade-upgrade Version.add_extensions c c' sound removable h =
      let there : has "postgis" c.extensions ≡ false = ground arith in
      let new : is_installable installs "postgis" c ≡ true = ground arith in
      let shape : c' ≡ with_extension installs "postgis" c = ground arith in
      rw shape (drop_installed installs c there new sound (ground arith))
  downgrade-upgrade Version.initial_crane_table c c' sound _ h =
      indexed_table Versions.crane_table c c' sound Versions.cranes_location h
  downgrade-upgrade Version.adding_gone_report_table c c' sound _ h =
      one_table Versions.gone_report_table c c' sound h
  downgrade-upgrade Version.add_crane_photo_table c c' sound _ h =
      indexed_table Versions.crane_photo_table c c' sound Versions.photo_crane_id h
  downgrade-upgrade Version.create_outbox_job_table c c' sound _ h =
      one_table Versions.outbox_job_table c c' sound h
  downgrade-upgrade Version.add_admin_accounts c c' sound _ h =
      let new_t : has_table "admin_user" c ≡ false = ground arith in
      let new_u : has_table "admin_token" c ≡ false = ground arith in
      let shape : c' ≡ record c {
        tables = Versions.admin_token_table ∷ Versions.admin_user_table ∷ c.tables;
        indexes = Versions.token_expires_at ∷ Versions.token_user_id ∷ c.indexes;
      } =
        ground arith in
      rw shape (
        drop_two installs Versions.admin_user_table Versions.admin_token_table
          (Versions.token_expires_at ∷ Versions.token_user_id ∷ []) c refl refl refl sound new_t
          new_u)
  downgrade-upgrade Version.add_photo_reports c c' sound _ h =
      table_of_index Versions.photo_report_table c c' sound Versions.report_photo_id h refl

  -- An upgrade that creates an enum type is refused after its own downgrade, which leaves the type.
  pub upgrade-downgrade-upgrade :
      (v : Version) (c c' c'' : Catalog)
      → run installs (script v).upgrade c ≡ some c'
      → run installs (script v).downgrade c' ≡ some c''
      → (enums_of (script v).upgrade ≡ []) ⊎ (run installs (script v).upgrade c'' ≡ none)
  unfolding run apply
  upgrade-downgrade-upgrade Version.add_crane_photo_table c c' c'' up down =
      let left : has "crane_photo_status" c''.types ≡ true = ground arith in inr (ground arith)
  upgrade-downgrade-upgrade Version.create_outbox_job_table c c' c'' up down =
      let left : has "job_operation" c''.types ≡ true = ground arith in inr (ground arith)
  upgrade-downgrade-upgrade Version.add_extensions c c' c'' up down = inl refl
  upgrade-downgrade-upgrade Version.initial_crane_table c c' c'' up down = inl refl
  upgrade-downgrade-upgrade Version.adding_gone_report_table c c' c'' up down = inl refl
  upgrade-downgrade-upgrade Version.add_admin_accounts c c' c'' up down = inl refl
  upgrade-downgrade-upgrade Version.add_photo_reports c c' c'' up down = inl refl
