-- ===== src/Models.antt =====
-- The tables (app/models/base.py) and the API's enums (app/schemas/base.py). UUIDs are numbers,
-- times are numbers of microseconds, and a coordinate counts units of 1e-7 degree.
use crane_tracker.Base.{ℕ, String, Bool, true, false, Option, List}
use crane_tracker.Base.Int.{ℤ}

pub data CraneStatus : Type 0 where
  active gone : CraneStatus

pub data CranePhotoStatus : Type 0 where
  active pending_upload pending_delete : CranePhotoStatus

pub data JobOperation : Type 0 where
  delete : JobOperation

pub data JobStatus : Type 0 where
  pending processing completed failed : JobStatus

abbrev pub photo_status_eq : CranePhotoStatus → CranePhotoStatus → Bool
photo_status_eq CranePhotoStatus.active CranePhotoStatus.active = true
photo_status_eq CranePhotoStatus.pending_upload CranePhotoStatus.pending_upload = true
photo_status_eq CranePhotoStatus.pending_delete CranePhotoStatus.pending_delete = true
photo_status_eq _ _ = false

abbrev pub operation_eq : JobOperation → JobOperation → Bool
operation_eq JobOperation.delete JobOperation.delete = true

abbrev pub job_status_eq : JobStatus → JobStatus → Bool
job_status_eq JobStatus.pending JobStatus.pending = true
job_status_eq JobStatus.processing JobStatus.processing = true
job_status_eq JobStatus.completed JobStatus.completed = true
job_status_eq JobStatus.failed JobStatus.failed = true
job_status_eq _ _ = false

-- `POINT(lng lat)`
pub record Point : Type 0 where
  pub lng : ℤ
  pub lat : ℤ

pub record Crane : Type 0 where
  pub id : ℕ
  pub lat : ℤ
  pub lng : ℤ
  pub location : Point
  pub project_name : Option String
  pub status : CraneStatus
  pub city : Option String
  pub neighborhood : Option String
  pub added_at : ℕ
  pub updated_at : ℕ

pub record CranePhoto : Type 0 where
  pub id : ℕ
  pub crane_id : ℕ
  pub storage_key : String
  pub original_filename : String
  pub content_type : String
  pub added_at : ℕ
  pub status : CranePhotoStatus

pub record GoneReport : Type 0 where
  pub id : ℕ
  pub crane_id : ℕ
  pub reporter_ip_hash : String
  pub added_at : ℕ

pub record OutboxJob : Type 0 where
  pub id : ℕ
  pub operation : JobOperation
  pub storage_key : String
  pub status : JobStatus
  pub attempts : ℕ
  pub available_at : ℕ
  pub lease_expires_at : Option ℕ
  pub last_error : Option String
  pub created_at : ℕ
  pub completed_at : Option ℕ

pub record AdminUser : Type 0 where
  pub id : ℕ
  pub username : String
  pub password_hash : String
  pub is_active : Bool

pub record AdminToken : Type 0 where
  pub token_hash : String
  pub user_id : ℕ
  pub expires_at : ℕ

pub record PhotoReport : Type 0 where
  pub id : ℕ
  pub photo_id : ℕ
  pub reporter_ip_hash : String
  pub added_at : ℕ

-- The tables of `Base.metadata`.
pub record Db : Type 0 where
  pub cranes : List Crane
  pub photos : List CranePhoto
  pub gone_reports : List GoneReport
  pub jobs : List OutboxJob
  pub admins : List AdminUser
  pub tokens : List AdminToken
  pub photo_reports : List PhotoReport
