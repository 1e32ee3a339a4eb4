-- ===== src/Migrations/Versions.antt =====
-- The files of alembic/versions, in the order of their revisions.
use crane_tracker.Base.{true, false, none, some, List, [], ◌∷◌}
use crane_tracker.Migrations.Schema.{
  SqlType, Constraint, Table, Index, table, column, nullable, from_now, primary, unique, references,
}
use crane_tracker.Migrations.Ddl.{Operation, Migration}

-- a9220af8ab24_add_extensions.py
abbrev pub add_extensions : Migration
add_extensions = record {
  revision = "a9220af8ab24";
  down_revision = none;
  upgrade = Operation.create_extension "postgis" ∷ [];
  downgrade = Operation.drop_extension "postgis" ∷ [];
}

-- 69af4f84e5fc_initial_crane_table.py
abbrev pub crane_table : Table
crane_table =
    table "crane"
      (column "id" SqlType.uuid
        ∷ column "lat" SqlType.float
        ∷ column "lng" SqlType.float
        ∷ column "location" SqlType.geometry_point
        ∷ nullable (column "project_name" (SqlType.string (some 255)))
        ∷ column "status" SqlType.text
        ∷ nullable (column "city" SqlType.text)
        ∷ nullable (column "neighborhood" SqlType.text)
        ∷ from_now (column "added_at" SqlType.timestamp)
        ∷ from_now (column "updated_at" SqlType.timestamp)
        ∷ [])
      (Constraint.check_constraint "ck_crane_lat_range" "lat >= -90 AND lat <= 90"
        ∷ Constraint.check_constraint "ck_crane_lng_range" "lng >= -180 AND lng <= 180"
        ∷ Constraint.primary_key_constraint ("id" ∷ [])
        ∷ [])

abbrev pub cranes_location : Index
cranes_location = record {
  name = "idx_cranes_location";
  table = "crane";
  columns = "location" ∷ [];
  gist = true;
}

abbrev pub initial_crane_table : Migration
initial_crane_table = record {
  revision = "69af4f84e5fc";
  down_revision = some "a9220af8ab24";
  upgrade = Operation.create_table crane_table ∷ Operation.create_index cranes_location ∷ [];
  downgrade = Operation.drop_index "idx_cranes_location" ∷ Operation.drop_table "crane" ∷ [];
}

-- the foreign key of a photo and of a gone report
abbrev to_crane : Constraint
to_crane =
    Constraint.foreign_key_constraint
      (record { columns = "crane_id" ∷ []; table = "crane"; target = "id" ∷ [] })

-- ef1668582c31_adding_gonereport_table.py
abbrev pub gone_report_table : Table
gone_report_table =
    table "gone_report"
      (column "id" SqlType.uuid
        ∷ column "crane_id" SqlType.uuid
        ∷ column "reporter_ip_hash" (SqlType.string none)
        ∷ from_now (column "added_at" SqlType.timestamp)
        ∷ [])
      (to_crane
        ∷ Constraint.primary_key_constraint ("id" ∷ [])
        ∷ Constraint.unique_constraint (some "crane_reporter")
            ("crane_id" ∷ "reporter_ip_hash" ∷ [])
        ∷ [])

abbrev pub adding_gone_report_table : Migration
adding_gone_report_table = record {
  revision = "ef1668582c31";
  down_revision = some "69af4f84e5fc";
  upgrade = Operation.create_table gone_report_table ∷ [];
  downgrade = Operation.drop_table "gone_report" ∷ [];
}

-- 42da8c9cd521_add_crane_photo_table.py
abbrev pub crane_photo_table : Table
crane_photo_table =
    table "crane_photo"
      (column "id" SqlType.uuid
        ∷ column "crane_id" SqlType.uuid
        ∷ column "storage_key" (SqlType.string (some 1024))
        ∷ column "original_filename" (SqlType.string (some 255))
        ∷ column "content_type" (SqlType.string (some 100))
        ∷ from_now (column "added_at" SqlType.timestamp)
        ∷ column "status" (
            SqlType.enum "crane_photo_status" ("active" ∷ "pending_upload" ∷ "pending_delete" ∷ []))
        ∷ [])
      (to_crane
        ∷ Constraint.primary_key_constraint ("id" ∷ [])
        ∷ Constraint.unique_constraint none ("storage_key" ∷ [])
        ∷ [])

abbrev pub photo_crane_id : Index
photo_crane_id = record {
  name = "ix_crane_photo_crane_id";
  table = "crane_photo";
  columns = "crane_id" ∷ [];
  gist = false;
}

abbrev pub add_crane_photo_table : Migration
add_crane_photo_table = record {
  revision = "42da8c9cd521";
  down_revision = some "ef1668582c31";
  upgrade = Operation.create_table crane_photo_table ∷ Operation.create_index photo_crane_id ∷ [];
  downgrade =
      Operation.drop_index "ix_crane_photo_crane_id" ∷ Operation.drop_table "crane_photo" ∷ [];
}

-- 89fe23b2ed7d_create_outboxjob_table.py
abbrev pub outbox_job_table : Table
outbox_job_table =
    table "outbox_job"
      (column "id" SqlType.uuid
        ∷ column "operation" (SqlType.enum "job_operation" ("delete" ∷ []))
        ∷ column "storage_key" (SqlType.string (some 1024))
        ∷ column "status"
            (SqlType.enum "job_status" ("pending" ∷ "processing" ∷ "completed" ∷ "failed" ∷ []))
        ∷ column "attempts" SqlType.integer
        ∷ from_now (column "available_at" SqlType.timestamp)
        ∷ nullable (column "lease_expires_at" SqlType.timestamp)
        ∷ nullable (column "last_error" (SqlType.string (some 1024)))
        ∷ from_now (column "created_at" SqlType.timestamp)
        ∷ nullable (column "completed_at" SqlType.timestamp)
        ∷ [])
      (Constraint.primary_key_constraint ("id" ∷ []) ∷ [])

abbrev pub create_outbox_job_table : Migration
create_outbox_job_table = record {
  revision = "89fe23b2ed7d";
  down_revision = some "42da8c9cd521";
  upgrade = Operation.create_table outbox_job_table ∷ [];
  downgrade = Operation.drop_table "outbox_job" ∷ [];
}

-- c781932ae015, admin accounts
abbrev pub admin_user_table : Table
admin_user_table =
    table "admin_user"
      (primary (column "id" SqlType.uuid)
        ∷ unique (column "username" (SqlType.string (some 255)))
        ∷ column "password_hash" (SqlType.string (some 255))
        ∷ column "is_active" SqlType.boolean
        ∷ [])
      []

abbrev pub admin_token_table : Table
admin_token_table =
    table "admin_token"
      (primary (column "token_hash" (SqlType.string (some 64)))
        ∷ references "admin_user" (column "user_id" SqlType.uuid)
        ∷ column "expires_at" SqlType.timestamp_with_timezone
        ∷ [])
      []

abbrev pub token_user_id : Index
token_user_id = record {
  name = "ix_admin_token_user_id";
  table = "admin_token";
  columns = "user_id" ∷ [];
  gist = false;
}

abbrev pub token_expires_at : Index
token_expires_at = record {
  name = "ix_admin_token_expires_at";
  table = "admin_token";
  columns = "expires_at" ∷ [];
  gist = false;
}

abbrev pub add_admin_accounts : Migration
add_admin_accounts = record {
  revision = "c781932ae015";
  down_revision = some "89fe23b2ed7d";
  upgrade =
      Operation.create_table admin_user_table
      ∷ Operation.create_table admin_token_table
      ∷ Operation.create_index token_user_id
      ∷ Operation.create_index token_expires_at
      ∷ [];
  downgrade = Operation.drop_table "admin_token" ∷ Operation.drop_table "admin_user" ∷ [];
}

-- d891a34b70f2, photo reports
abbrev pub photo_report_table : Table
photo_report_table =
    table "photo_report"
      (primary (column "id" SqlType.uuid)
        ∷ references "crane_photo" (column "photo_id" SqlType.uuid)
        ∷ column "reporter_ip_hash" (SqlType.string (some 64))
        ∷ from_now (column "added_at" SqlType.timestamp)
        ∷ [])
      (Constraint.unique_constraint (some "photo_reporter") ("photo_id" ∷ "reporter_ip_hash" ∷ [])
        ∷ [])

abbrev pub report_photo_id : Index
report_photo_id = record {
  name = "ix_photo_report_photo_id";
  table = "photo_report";
  columns = "photo_id" ∷ [];
  gist = false;
}

abbrev pub add_photo_reports : Migration
add_photo_reports = record {
  revision = "d891a34b70f2";
  down_revision = some "c781932ae015";
  upgrade = Operation.create_table photo_report_table ∷ Operation.create_index report_photo_id ∷ [];
  downgrade = Operation.drop_table "photo_report" ∷ [];
}

abbrev pub migrations : List Migration
migrations =
    add_extensions ∷ initial_crane_table ∷ adding_gone_report_table ∷ add_crane_photo_table
    ∷ create_outbox_job_table ∷ add_admin_accounts ∷ add_photo_reports ∷ []
