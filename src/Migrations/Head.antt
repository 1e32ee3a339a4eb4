-- ===== src/Migrations/Head.antt =====
-- Upgrading to the head.
use mathlib.Core.List.{Perm, perm_middle}
use mathlib.Core.List.Perm
use crane_tracker.Base.{
  ap, ◌∙◌, String, ℕ, ◌≡◌, refl, Bool, true, not, Option, some, List, [], ◌∷◌, ◌++◌, ◌&&◌, map, all,
  take, arith,
}
use crane_tracker.Migrations.Schema.{Table, Index}
use crane_tracker.Migrations.Ddl.{
  Catalog, Operation, Migration, guarded, run, apply, continue, has, has_relation, with_extension,
  own_tables, is_installable,
}
use crane_tracker.Migrations.Versions.{
  migrations, initial_crane_table, adding_gone_report_table, add_crane_photo_table,
  create_outbox_job_table, add_admin_accounts, add_photo_reports, photo_report_table,
  admin_token_table, admin_user_table, outbox_job_table, crane_photo_table, gone_report_table,
  crane_table, report_photo_id, token_expires_at, token_user_id, photo_crane_id, cranes_location,
}
use crane_tracker.Migrations.Metadata

-- No table, index or type of the program is there.
abbrev pub is_free : Catalog → Bool
is_free c =
    all (λ d. not (has_relation d.tablename c)) Metadata.metadata
    && all (λ d. all (λ i. not (has_relation i.name c)) (Metadata.indexes_of d)) Metadata.metadata
    && all (λ e. not (has e c.types)) ("crane_photo_status" ∷ "job_operation" ∷ "job_status" ∷ [])

-- The tables of the migrations in the order in which they are found after them.
abbrev pub head_tables : List Table
head_tables =
    photo_report_table ∷ admin_token_table ∷ admin_user_table ∷ outbox_job_table ∷ crane_photo_table
    ∷ gone_report_table ∷ crane_table ∷ []

abbrev head_indexes : List Index
head_indexes =
    report_photo_id ∷ token_expires_at ∷ token_user_id ∷ photo_crane_id ∷ cranes_location ∷ []

abbrev pub at_head : Catalog → Catalog
at_head c = record {
  extensions = c.extensions;
  types = "job_operation" ∷ "job_status" ∷ "crane_photo_status" ∷ c.types;
  tables = head_tables ++ c.tables;
  indexes = head_indexes ++ c.indexes;
}

-- a list in another order, by the place of its first element
placed {ℓ} :
    {A : Type ℓ} (x : A) (l₁ l₂ : List A) {xs : List A}
    → Perm xs (l₁ ++ l₂)
    → Perm (x ∷ xs) (l₁ ++ (x ∷ l₂))
placed x l₁ l₂ h = Perm.trans (Perm.cons x h) (Perm.symm (perm_middle l₁ l₂))

abbrev first_tables : ℕ → List Table
first_tables n = map Metadata.table_of (take n Metadata.metadata)

pub tables-Perm :
    (rest : List Table)
    → Perm (head_tables ++ rest) (map Metadata.table_of Metadata.metadata ++ rest)
tables-Perm rest = placed photo_report_table (first_tables 6) rest (
    placed admin_token_table (first_tables 5) rest (
      placed admin_user_table (first_tables 4) rest (
        placed outbox_job_table (first_tables 3) rest (
          placed crane_photo_table (first_tables 1) (gone_report_table ∷ rest)
            (placed gone_report_table (first_tables 1) rest (Perm.refl (crane_table ∷ rest)))))))

abbrev first_indexes : ℕ → List Index
first_indexes n = take n (Metadata.indexes Metadata.metadata)

indexes-Perm :
    (rest : List Index) → Perm (head_indexes ++ rest) (Metadata.indexes Metadata.metadata ++ rest)
indexes-Perm rest = placed report_photo_id (first_indexes 4) rest (
    placed token_expires_at (first_indexes 3) rest (
      placed token_user_id (first_indexes 2) rest
        (placed photo_crane_id (first_indexes 1) rest (Perm.refl (cranes_location ∷ rest)))))

abbrev later_versions : List Migration
later_versions =
    initial_crane_table ∷ adding_gone_report_table ∷ add_crane_photo_table ∷ create_outbox_job_table
    ∷ add_admin_accounts ∷ add_photo_reports ∷ []

module _ (installs : String → List Table) where
  -- `alembic upgrade head` on a database at no revision
  unfoldable pub upgrade_all : List Migration → Catalog → Option Catalog
  unfolding run
  upgrade_all [] c = some c
  upgrade_all (m ∷ rest) c = continue (run installs m.upgrade c) (upgrade_all rest)

  -- the catalog with PostGIS
  abbrev pub with_postgis : Catalog → Catalog
  with_postgis c = with_extension installs "postgis" c

  installed : (c : Catalog) → has "postgis" (with_postgis c).extensions ≡ true
  installed c = ground arith

  rest-at_head :
      (c : Catalog)
      → has "postgis" c.extensions ≡ true
      → is_free c ≡ true
      → upgrade_all later_versions c ≡ some (at_head c)
  unfolding upgrade_all run apply
  rest-at_head c there free = ground arith

  installs_postgis :
      (c : Catalog)
      → is_installable installs "postgis" c ≡ true
      → run installs (Operation.create_extension "postgis" ∷ []) c ≡ some (with_postgis c)
  unfolding run apply
  installs_postgis c new = ap (λ b. continue (guarded b (with_postgis c)) some) new

  pub upgrade_all-at_head :
      (c : Catalog)
      → is_installable installs "postgis" c ≡ true
      → is_free (with_postgis c) ≡ true
      → upgrade_all migrations c ≡ some (at_head (with_postgis c))
  unfolding upgrade_all
  upgrade_all-at_head c new free =
      ap (λ r. continue r (upgrade_all later_versions)) (installs_postgis c new)
      ∙ rest-at_head (with_postgis c) (installed c) free

  -- On a database on which PostGIS is installed or can be, and that then has none of the program's
  -- tables, indexes and types, the migrations all succeed and add the tables and the indexes that the
  -- classes of the models declare, and no others but the tables of PostGIS, with their enum types
  -- and PostGIS.
  pub upgrade_all-metadata :
      (c : Catalog)
      → is_installable installs "postgis" c ≡ true
      → is_free (with_postgis c) ≡ true
      → (c' : Catalog) × (upgrade_all migrations c ≡ some c')
        × Perm c'.tables (
            map Metadata.table_of Metadata.metadata
            ++ (own_tables installs "postgis" c ++ c.tables))
        × Perm c'.indexes (Metadata.indexes Metadata.metadata ++ c.indexes)
        × (c'.types ≡ "job_operation" ∷ "job_status" ∷ "crane_photo_status" ∷ c.types)
        × (has "postgis" c'.extensions ≡ true)
  upgrade_all-metadata c new free = (
    at_head (with_postgis c),
    upgrade_all-at_head c new free,
    tables-Perm (with_postgis c).tables,
    indexes-Perm c.indexes,
    refl,
    installed c,
  )
