-- ===== src/Migrations/Schema.antt =====
-- Tables as SQLAlchemy describes them, in `op.create_table` of a migration and in the classes of
-- app/models/base.py, and the table of the database that either description stands for.
use crane_tracker.Base.{
  ℕ, String, Bool, true, false, Option, none, some, List, [], ◌∷◌, ◌++◌, map, select,
}

pub data SqlType : Type 0 where
  uuid float boolean integer text timestamp timestamp_with_timezone geometry_point : SqlType
  string : Option ℕ → SqlType
  enum : String → List String → SqlType

-- `ForeignKey("table.column", ondelete="CASCADE")` of some columns
pub record ForeignKey : Type 0 where
  pub columns : List String
  pub table : String
  pub target : List String

-- `sa.Column` and `mapped_column`, with what they say of constraints
pub record Column : Type 0 where
  pub name : String
  pub type : SqlType
  pub nullable : Bool
  -- `server_default=sa.text('now()')`
  pub now : Bool
  pub primary_key : Bool
  pub unique : Bool
  pub index : Bool
  pub foreign_key : Option ForeignKey

abbrev pub column : String → SqlType → Column
column name type = record {
  name = name;
  type = type;
  nullable = false;
  now = false;
  primary_key = false;
  unique = false;
  index = false;
  foreign_key = none;
}

abbrev pub nullable : Column → Column
nullable c = record c { nullable = true }

abbrev pub from_now : Column → Column
from_now c = record c { now = true }

abbrev pub primary : Column → Column
primary c = record c { primary_key = true }

abbrev pub unique : Column → Column
unique c = record c { unique = true }

abbrev pub indexed : Column → Column
indexed c = record c { index = true }

-- `ForeignKey("table.id", ondelete="CASCADE")` of one column
abbrev pub references : String → Column → Column
references table c = record c {
  foreign_key = some (record { columns = c.name ∷ []; table = table; target = "id" ∷ [] });
}

pub data Constraint : Type 0 where
  primary_key_constraint : List String → Constraint
  foreign_key_constraint : ForeignKey → Constraint
  unique_constraint : Option String → List String → Constraint
  check_constraint : String → String → Constraint

-- A column of the database: its name, type, and whether it is nullable and starts as `now()`.
pub record Field : Type 0 where
  pub name : String
  pub type : SqlType
  pub nullable : Bool
  pub now : Bool

pub record Unique : Type 0 where
  pub name : Option String
  pub columns : List String

pub record Check : Type 0 where
  pub name : String
  pub condition : String

pub record Table : Type 0 where
  pub name : String
  pub fields : List Field
  pub primary_key : List String
  pub foreign_keys : List ForeignKey
  pub uniques : List Unique
  pub checks : List Check

pub record Index : Type 0 where
  pub name : String
  pub table : String
  pub columns : List String
  -- `postgresql_using='gist'`
  pub gist : Bool

abbrev field_of : Column → Field
field_of c = record { name = c.name; type = c.type; nullable = c.nullable; now = c.now }

abbrev names_of : List Column → List String
names_of = map λ c. c.name

abbrev keys_of : List Column → List ForeignKey
keys_of [] = []
keys_of (c ∷ cs) = elim c.foreign_key [ none ↦ keys_of cs | some k ↦ k ∷ keys_of cs ]

abbrev uniques_of : List Column → List Unique
uniques_of cs = map (λ c. record { name = none; columns = c.name ∷ [] }) (select (λ c. c.unique) cs)

abbrev constrained : Table → List Constraint → Table
constrained t [] = t
constrained t (Constraint.primary_key_constraint names ∷ rest) =
    constrained (record t { primary_key = names }) rest
constrained t (Constraint.foreign_key_constraint k ∷ rest) =
    constrained (record t { foreign_keys = t.foreign_keys ++ k ∷ [] }) rest
constrained t (Constraint.unique_constraint name names ∷ rest) =
    constrained (record t { uniques = t.uniques ++ record { name = name; columns = names } ∷ [] })
      rest
constrained t (Constraint.check_constraint name condition ∷ rest) =
    constrained
      (record t { checks = t.checks ++ record { name = name; condition = condition } ∷ [] }) rest

-- The table of a name, columns and constraints.
abbrev pub table : String → List Column → List Constraint → Table
table name columns constraints =
    constrained
      (record {
        name = name;
        fields = map field_of columns;
        primary_key = names_of (select (λ c. c.primary_key) columns);
        foreign_keys = keys_of columns;
        uniques = uniques_of columns;
        checks = [];
      })
      constraints
