-- ===== src/Routes/Photos.antt =====
-- The handlers of photos in app/routes/crane.py. The upload spans three transactions: the pending
-- row, the activation after the object is stored, and, on a failure, the abandonment.
use crane_tracker.Base.{
  ℕ, String, Bool, true, false, Option, none, some, List, text_eq, map, length, ltb, if◌then◌else◌,
  take,
}
use crane_tracker.Models.{CranePhoto}
use crane_tracker.Errors.{Error, photo_storage, photo_upload_race, sql_alchemy, http, message}
use crane_tracker.Schemas.{CranePhotoResponse, PhotoListResponse}
use crane_tracker.Env.{Env}
use crane_tracker.Exec.{Action, pure, raise, rescue, commit, rollback, request, ◌>>=◌, ◌>>◌}
use crane_tracker.Photo.Upload as Upload
use crane_tracker.Photo.Upload.{UploadFile}
use crane_tracker.Photo.Review as Review
use crane_tracker.Auth.{require_admin}
use crane_tracker.Routes.Cranes.{serialize_crane_photo}

-- `report_counts.get(photo.id, 0)`
abbrev or_zero : Option ℕ → ℕ
or_zero none = 0
or_zero (some n) = n

abbrev pub default_limit : ℕ
default_limit = 50

unfoldable pub get_crane_photos :
    Env → Option String → Option ℕ → ℕ → Bool → Action PhotoListResponse
get_crane_photos env credentials cursor limit reported_only = request do
  require_admin env credentials
  photos ← Review.get_crane_photos cursor limit reported_only
  report_counts ← Review.get_photo_report_counts (map (λ p. p.id) (take limit photos))
  pure (record {
    photos =
        map
          (λ p. record {
            photo = serialize_crane_photo env p;
            report_count = or_zero (report_counts p.id);
          })
          (take limit photos);
    end = if ltb limit (length photos) then false else true;
  })

-- The file of a request, with what its sender says of it.
pub record RequestFile : Type 0 where
  pub file : List ℕ
  pub filename : Option String
  pub content_type : Option String

-- `text or default`
abbrev pub or_text : Option String → String → String
or_text none default = default
or_text (some text) default = if text_eq text "" then default else text

abbrev pub upload_of : RequestFile → UploadFile
upload_of photo = record {
  file = photo.file;
  filename = or_text photo.filename "photo";
  content_type = or_text photo.content_type "application/octet-stream";
}

module _ (env : Env) where
  -- `_abandon_helper`, whose `except Exception` swallows the failure
  unfoldable pub abandon_helper : ℕ → Action (Unit {0})
  abandon_helper photo_id =
      rescue (Upload.abandon_crane_photo_upload env (some photo_id) >> commit) (λ _. rollback)

  -- the second transaction, after the object is in the bucket
  unfoldable pub store_and_finalize : CranePhoto → List ℕ → Action CranePhoto
  store_and_finalize crane_photo prepared_file = do
    Upload.upload_crane_photo_to_storage env crane_photo.storage_key crane_photo.content_type
        prepared_file
    photo ← Upload.finalize_crane_photo crane_photo.id
    commit
    pure photo

  unfoldable pub abandon_and_raise : ℕ → Error → Action CranePhoto
  unfolding abandon_helper
  abandon_and_raise photo_id e = do rollback; abandon_helper photo_id; raise e

  -- the two handlers round the second transaction; any other exception goes on
  unfoldable pub upload_failed : ℕ → Error → Action CranePhoto
  unfolding abandon_helper abandon_and_raise
  upload_failed photo_id (photo_storage text) = abandon_and_raise photo_id (http 503 text)
  upload_failed photo_id photo_upload_race =
      abandon_and_raise photo_id (http 503 (message env.uuid_str photo_upload_race))
  upload_failed photo_id (sql_alchemy _) =
      abandon_and_raise photo_id (http 500 "Photo could not be saved")
  upload_failed photo_id e = raise e

  -- the first transaction
  unfoldable pub begin_upload : ℕ → UploadFile → Action (CranePhoto × List ℕ)
  begin_upload crane_id upload = do
    (crane_photo, prepared_file) ← Upload.preupload_crane_photo env crane_id upload
    commit
    pure (crane_photo, prepared_file)

  unfoldable pub upload_crane_photo : ℕ → RequestFile → Action CranePhotoResponse
  unfolding begin_upload store_and_finalize upload_failed
  upload_crane_photo crane_id photo = request do
    (crane_photo, prepared_file) ← begin_upload crane_id (upload_of photo)
    finalized ← rescue (store_and_finalize crane_photo prepared_file) (upload_failed crane_photo.id)
    pure (serialize_crane_photo env finalized)

  unfoldable pub delete_crane_photo : Option String → ℕ → ℕ → Action (Unit {0})
  delete_crane_photo credentials crane_id photo_id =
      request
        do require_admin env credentials; Upload.delete_crane_photo env crane_id photo_id; commit

  unfoldable pub finish_report : Bool → Action String
  finish_report created =
      if created
      then commit >> pure "Photo reported for admin review"
      else raise (http 409 "Photo already reported from this IP")

  unfoldable pub report_from : ℕ → ℕ → Option String → Action String
  unfolding finish_report
  report_from crane_id photo_id none = raise (http 400 "Could not identify host to record report")
  report_from crane_id photo_id (some client_ip) = do
    created ← Review.report_crane_photo env crane_id photo_id client_ip
    finish_report created

  unfoldable pub report_crane_photo : ℕ → ℕ → Option String → Action String
  unfolding report_from
  report_crane_photo crane_id photo_id client_host =
      request (report_from crane_id photo_id client_host)
