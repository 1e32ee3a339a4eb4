-- ===== src/Migrations/Metadata.antt =====
-- The tables that the classes of app/models/base.py declare (`Base.metadata`).
use Prim.Native.String.{◌++◌ as ◌+++◌}
use crane_tracker.Base.{String, true, false, none, some, List, [], ◌∷◌, ◌++◌, map, select}
use crane_tracker.Migrations.Schema.{
  SqlType, Constraint, Column, Table, Index, table, column, nullable, from_now, primary, unique,
  indexed, references,
}

-- A class: its `__tablename__`, its columns, and the constraints and indexes of `__table_args__`.
pub record Declaration : Type 0 where
  pub tablename : String
  pub columns : List Column
  pub constraints : List Constraint
  pub indexes : List Index

abbrev pub table_of : Declaration → Table
table_of d = table d.tablename d.columns d.constraints

-- The index of a column with `index=True` has SQLAlchemy's default name.
abbrev pub indexes_of : Declaration → List Index
indexes_of d =
    map
      (λ c. record {
        name = "ix_" +++ (d.tablename +++ ("_" +++ c.name));
        table = d.tablename;
        columns = c.name ∷ [];
        gist = false;
      })
      (select (λ c. c.index) d.columns)
    ++ d.indexes

abbrev id : Column
id = primary (column "id" SqlType.uuid)

abbrev pub crane : Declaration
crane = record {
  tablename = "crane";
  columns =
      id
      ∷ column "lat" SqlType.float
      ∷ column "lng" SqlType.float
      ∷ column "location" SqlType.geometry_point
      ∷ nullable (column "project_name" (SqlType.string (some 255)))
      ∷ column "status" SqlType.text
      ∷ nullable (column "city" SqlType.text)
      ∷ nullable (column "neighborhood" SqlType.text)
      ∷ from_now (column "added_at" SqlType.timestamp)
      ∷ from_now (column "updated_at" SqlType.timestamp)
      ∷ [];
  constraints =
      Constraint.check_constraint "ck_crane_lat_range" "lat >= -90 AND lat <= 90"
      ∷ Constraint.check_constraint "ck_crane_lng_range" "lng >= -180 AND lng <= 180"
      ∷ [];
  indexes =
      record {
        name = "idx_cranes_location";
        table = "crane";
        columns = "location" ∷ [];
        gist = true;
      }
      ∷ [];
}

abbrev crane_photo_status_type : SqlType
crane_photo_status_type =
    SqlType.enum "crane_photo_status" ("active" ∷ "pending_upload" ∷ "pending_delete" ∷ [])

abbrev pub crane_photo : Declaration
crane_photo = record {
  tablename = "crane_photo";
  columns =
      id
      ∷ indexed (references "crane" (column "crane_id" SqlType.uuid))
      ∷ unique (column "storage_key" (SqlType.string (some 1024)))
      ∷ column "original_filename" (SqlType.string (some 255))
      ∷ column "content_type" (SqlType.string (some 100))
      ∷ from_now (column "added_at" SqlType.timestamp)
      ∷ column "status" crane_photo_status_type
      ∷ [];
  constraints = [];
  indexes = [];
}

abbrev pub gone_report : Declaration
gone_report = record {
  tablename = "gone_report";
  columns =
      id
      ∷ references "crane" (column "crane_id" SqlType.uuid)
      ∷ column "reporter_ip_hash" (SqlType.string none)
      ∷ from_now (column "added_at" SqlType.timestamp)
      ∷ [];
  constraints =
      Constraint.unique_constraint (some "crane_reporter") ("crane_id" ∷ "reporter_ip_hash" ∷ [])
      ∷ [];
  indexes = [];
}

abbrev job_operation_type : SqlType
job_operation_type = SqlType.enum "job_operation" ("delete" ∷ [])

abbrev job_status_type : SqlType
job_status_type = SqlType.enum "job_status" ("pending" ∷ "processing" ∷ "completed" ∷ "failed" ∷ [])

abbrev pub outbox_job : Declaration
outbox_job = record {
  tablename = "outbox_job";
  columns =
      id
      ∷ column "operation" job_operation_type
      ∷ column "storage_key" (SqlType.string (some 1024))
      ∷ column "status" job_status_type
      ∷ column "attempts" SqlType.integer
      ∷ from_now (column "available_at" SqlType.timestamp)
      ∷ nullable (column "lease_expires_at" SqlType.timestamp)
      ∷ nullable (column "last_error" (SqlType.string (some 1024)))
      ∷ from_now (column "created_at" SqlType.timestamp)
      ∷ nullable (column "completed_at" SqlType.timestamp)
      ∷ [];
  constraints = [];
  indexes = [];
}

abbrev pub admin_user : Declaration
admin_user = record {
  tablename = "admin_user";
  columns =
      id
      ∷ unique (column "username" (SqlType.string (some 255)))
      ∷ column "password_hash" (SqlType.string (some 255))
      ∷ column "is_active" SqlType.boolean
      ∷ [];
  constraints = [];
  indexes = [];
}

abbrev pub admin_token : Declaration
admin_token = record {
  tablename = "admin_token";
  columns =
      primary (column "token_hash" (SqlType.string (some 64)))
      ∷ indexed (references "admin_user" (column "user_id" SqlType.uuid))
      ∷ indexed (column "expires_at" SqlType.timestamp_with_timezone)
      ∷ [];
  constraints = [];
  indexes = [];
}

abbrev pub photo_report : Declaration
photo_report = record {
  tablename = "photo_report";
  columns =
      id
      ∷ indexed (references "crane_photo" (column "photo_id" SqlType.uuid))
      ∷ column "reporter_ip_hash" (SqlType.string (some 64))
      ∷ from_now (column "added_at" SqlType.timestamp)
      ∷ [];
  constraints =
      Constraint.unique_constraint (some "photo_reporter") ("photo_id" ∷ "reporter_ip_hash" ∷ [])
      ∷ [];
  indexes = [];
}

abbrev pub metadata : List Declaration
metadata =
    crane ∷ crane_photo ∷ gone_report ∷ outbox_job ∷ admin_user ∷ admin_token ∷ photo_report ∷ []

abbrev pub indexes : List Declaration → List Index
indexes [] = []
indexes (d ∷ ds) = indexes_of d ++ indexes ds
