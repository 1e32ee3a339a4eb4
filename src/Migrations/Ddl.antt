-- ===== src/Migrations/Ddl.antt =====
-- What PostgreSQL's catalog holds, and what the operations of Alembic that the migrations call do to
-- it: `none` where PostgreSQL refuses the statement.
use crane_tracker.Base.{
  String, Bool, true, false, not, Option, none, some, List, [], ◌∷◌, ◌++◌, ◌&&◌, ◌||◌, any, all,
  delete, text_eq, if◌then◌else◌,
}
use crane_tracker.Migrations.Schema.{SqlType, Table, Index, Field}

pub record Catalog : Type 0 where
  pub extensions : List String
  -- the names of the enum types
  pub types : List String
  pub tables : List Table
  pub indexes : List Index

pub data Operation : Type 0 where
  create_extension drop_extension : String → Operation
  create_table : Table → Operation
  drop_table : String → Operation
  create_index : Index → Operation
  drop_index : String → Operation

abbrev pub has : String → List String → Bool
has name names = any (λ n. text_eq n name) names

abbrev pub has_table : String → Catalog → Bool
has_table name c = any (λ t. text_eq t.name name) c.tables

-- Tables and indexes share their names.
abbrev pub has_relation : String → Catalog → Bool
has_relation name c = has_table name c || any (λ i. text_eq i.name name) c.indexes

abbrev pub is_geometry : Field → Bool
is_geometry f = elim f.type [ SqlType.geometry_point ↦ true | _ ↦ false ]

-- the enum types that a table brings along
abbrev pub enums : List Field → List String
enums [] = []
enums (f ∷ fs) = elim f.type [ SqlType.enum name _ ↦ name ∷ enums fs | _ ↦ enums fs ]

abbrev pub refers_to : String → Table → Bool
refers_to name t = any (λ k. text_eq k.table name) t.foreign_keys

-- The type of a point is PostGIS's, and a foreign key needs its table.
abbrev pub is_supported : Table → Catalog → Bool
is_supported t c =
    all (λ f. not (is_geometry f) || has "postgis" c.extensions) t.fields
    && all (λ k. has_table k.table c) t.foreign_keys

abbrev pub is_new : Table → Catalog → Bool
is_new t c = not (has_relation t.name c) && all (λ e. not (has e c.types)) (enums t.fields)

abbrev pub guarded : Bool → Catalog → Option Catalog
guarded true c = some c
guarded false c = none

abbrev pub continue : Option Catalog → (Catalog → Option Catalog) → Option Catalog
continue none f = none
continue (some c) f = f c

-- `installs` has the tables and views that come with an extension, such as PostGIS's `spatial_ref_sys`.
module _ (installs : String → List Table) where
  -- the tables that `CREATE EXTENSION IF NOT EXISTS` installs: none where the extension is there
  abbrev pub own_tables : String → Catalog → List Table
  own_tables name c = if has name c.extensions then [] else installs name

  -- They have names of their own.
  abbrev pub is_installable : String → Catalog → Bool
  is_installable name c = all (λ t. not (has_relation t.name c)) (own_tables name c)

  abbrev pub with_extension : String → Catalog → Catalog
  with_extension name c = record c {
    extensions = if has name c.extensions then c.extensions else name ∷ c.extensions;
    tables = own_tables name c ++ c.tables;
  }

  -- whether this is the name of a table of the extension
  abbrev pub is_own : String → String → Bool
  is_own name table = any (λ t. text_eq t.name table) (installs name)

  abbrev pub without_extension : String → Catalog → Catalog
  without_extension name c = record c {
    extensions = delete (λ n. text_eq n name) c.extensions;
    tables = delete (λ t. is_own name t.name) c.tables;
    indexes = delete (λ i. is_own name i.table) c.indexes;
  }

  -- No column that is left has a type of PostGIS, and no foreign key is to a table of the extension.
  abbrev pub is_unused : String → Catalog → Bool
  is_unused name c =
      not (text_eq name "postgis" && any (λ t. any is_geometry t.fields) c.tables)
      && not (any (λ t. any (λ k. is_own name k.table) t.foreign_keys) c.tables)

  -- A foreign key keeps its table.
  unfoldable pub apply : Operation → Catalog → Option Catalog
  apply (Operation.create_extension name) c =
      guarded (is_installable name c) (with_extension name c)
  apply (Operation.drop_extension name) c =
      if has name c.extensions
      then guarded (is_unused name (without_extension name c)) (without_extension name c)
      else some c
  apply (Operation.create_table t) c =
      guarded (is_new t c && is_supported t c)
        (record c { types = enums t.fields ++ c.types; tables = t ∷ c.tables })
  apply (Operation.drop_table name) c =
      guarded
        (has_table name c
          && not (any (λ t. refers_to name t && not (text_eq t.name name)) c.tables))
        (record c {
          tables = delete (λ t. text_eq t.name name) c.tables;
          indexes = delete (λ i. text_eq i.table name) c.indexes;
        })
  apply (Operation.create_index i) c =
      guarded (has_table i.table c && not (has_relation i.name c))
        (record c { indexes = i ∷ c.indexes })
  apply (Operation.drop_index name) c =
      guarded (any (λ i. text_eq i.name name) c.indexes)
        (record c { indexes = delete (λ i. text_eq i.name name) c.indexes })

  -- A migration runs in one transaction: all of its operations, or none.
  unfoldable pub run : List Operation → Catalog → Option Catalog
  unfolding apply
  run [] c = some c
  run (operation ∷ rest) c = continue (apply operation c) (run rest)

pub record Migration : Type 0 where
  pub revision : String
  pub down_revision : Option String
  pub upgrade : List Operation
  pub downgrade : List Operation
