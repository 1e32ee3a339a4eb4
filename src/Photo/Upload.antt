-- ===== src/Photo/Upload.antt =====
-- The upload and the deletion of photos in app/services/photo.py, and `create_task` of
-- app/services/job.py, which queues the removal of an object from the bucket.
use Prim.Native.String as Text
use Prim.Native.String.{◌++◌}
use crane_tracker.Base.{
  ℕ, String, Bool, Option, none, some, List, ◌&&◌, ◌||◌, ◌==◌, ltb, leb, not, if◌then◌else◌, length,
  find, count, update,
}
use crane_tracker.Models.{
  CranePhoto, CranePhotoStatus, JobOperation, JobStatus, OutboxJob, Db, photo_status_eq,
}
use crane_tracker.Errors.{
  Result, err, invalid_photo, photo_too_large, unsupported_photo_type, photo_limit_exceeded,
  photo_upload_race, resource_not_found,
}
use crane_tracker.Env.{Env}
use crane_tracker.Database.{insert_photo, insert_job, has_crane}
use crane_tracker.Exec.{
  Action, pure, raise, lift, gets, query, or_raise, modify, execute, draw, now, ◌>>=◌, ◌>>◌,
}
use crane_tracker.Photo.Image.{prepare_image, PreparedImage, is_allowed_type, max_photo_size_bytes}
use crane_tracker.Storage

abbrev pub max_photos_per_crane : ℕ
max_photos_per_crane = 3

-- `create_storage_key`
unfoldable pub create_storage_key : (ℕ → String) → ℕ → ℕ → String → String
create_storage_key uuid_str crane_id photo_id extension =
    "cranes/" ++ (uuid_str crane_id ++ ("/photos/" ++ (uuid_str photo_id ++ extension)))

-- the photos that take one of a crane's places
abbrev pub occupies : ℕ → CranePhoto → Bool
occupies crane_id p =
    p.crane_id == crane_id
    && (photo_status_eq p.status CranePhotoStatus.active
        || photo_status_eq p.status CranePhotoStatus.pending_upload)

-- The lock on the crane's row, which keeps two uploads apart, is the caller's: an action is one
-- transaction, and transactions that lock the same row run one after the other.
unfoldable pub ensure_crane_photo_capacity : ℕ → Action (Unit {0})
ensure_crane_photo_capacity crane_id = do
  crane_exists ← query (has_crane crane_id)
  if crane_exists then pure tt else raise (resource_not_found "crane" crane_id)
  n ← query (λ d. count (occupies crane_id) d.photos)
  if leb max_photos_per_crane n then raise (photo_limit_exceeded crane_id n) else pure tt

-- What a request uploads.
pub record UploadFile : Type 0 where
  pub file : List ℕ
  pub filename : String
  pub content_type : String

-- the checks of `preupload_crane_photo` before the database is asked
unfoldable pub check_upload : Env → UploadFile → Result PreparedImage
unfolding prepare_image is_allowed_type
check_upload env upload =
    if not (is_allowed_type upload.content_type)
    then err (unsupported_photo_type ("Unsupported photo content type: " ++ upload.content_type))
    else if ltb 255 (Text.count upload.filename)
    then err (invalid_photo "Photo filename must be 255 characters or fewer")
    else if length upload.file == 0
    then err (invalid_photo "Photo must not be empty")
    else if ltb max_photo_size_bytes (length upload.file)
    then err (photo_too_large "Photo must be 10 MB or smaller")
    else prepare_image env.pillow upload.file upload.content_type

-- the row of a photo that is yet to be stored
abbrev pub pending_photo : Env → ℕ → UploadFile → PreparedImage → ℕ → ℕ → CranePhoto
pending_photo env crane_id upload prepared id time = record {
  id = id;
  crane_id = crane_id;
  storage_key = create_storage_key env.uuid_str crane_id id prepared.2;
  original_filename = upload.filename;
  content_type = prepared.1;
  added_at = time;
  status = CranePhotoStatus.pending_upload;
}

-- the part of `preupload_crane_photo` behind the checks
unfoldable pub insert_upload : Env → ℕ → UploadFile → PreparedImage → Action (CranePhoto × List ℕ)
insert_upload env crane_id upload prepared = do
  id ← draw env.uuid7
  time ← gets now
  execute (insert_photo (pending_photo env crane_id upload prepared id time))
  pure (pending_photo env crane_id upload prepared id time, prepared.0)

unfoldable pub preupload_crane_photo : Env → ℕ → UploadFile → Action (CranePhoto × List ℕ)
unfolding check_upload ensure_crane_photo_capacity insert_upload
preupload_crane_photo env crane_id upload = do
  prepared ← lift (check_upload env upload)
  ensure_crane_photo_capacity crane_id
  insert_upload env crane_id upload prepared

unfoldable pub upload_crane_photo_to_storage : Env → String → String → List ℕ → Action (Unit {0})
upload_crane_photo_to_storage env storage_key content_type file =
    Storage.upload_photo env file storage_key content_type

abbrev pub set_status : CranePhotoStatus → CranePhoto → CranePhoto
set_status status p = record p { status = status }

abbrev pub is_pending_upload : ℕ → CranePhoto → Bool
is_pending_upload id p = p.id == id && photo_status_eq p.status CranePhotoStatus.pending_upload

abbrev pub activate : ℕ → Db → Db
activate photo_id d = record d {
  photos = update (is_pending_upload photo_id) (set_status CranePhotoStatus.active) d.photos;
}

-- `UPDATE … SET status = ACTIVE WHERE id = … AND status = PENDING_UPLOAD RETURNING …`
unfoldable pub finalize_crane_photo : ℕ → Action CranePhoto
finalize_crane_photo photo_id = do
  pending ← query (λ d. find (is_pending_upload photo_id) d.photos)
  photo ← or_raise pending photo_upload_race
  modify (activate photo_id)
  pure (set_status CranePhotoStatus.active photo)

-- the new row of the outbox, with the defaults of its columns
abbrev pub new_job : JobOperation → String → ℕ → ℕ → OutboxJob
new_job operation storage_key id time = record {
  id = id;
  operation = operation;
  storage_key = storage_key;
  status = JobStatus.pending;
  attempts = 0;
  available_at = time;
  lease_expires_at = none;
  last_error = none;
  created_at = time;
  completed_at = none;
}

unfoldable pub create_task : Env → JobOperation → String → Action (Unit {0})
create_task env operation storage_key = do
  id ← draw env.uuid7
  time ← gets now
  execute (insert_job (new_job operation storage_key id time))

abbrev pub mark_deleted : ℕ → Db → Db
mark_deleted id d = record d {
  photos = update (λ p. p.id == id) (set_status CranePhotoStatus.pending_delete) d.photos;
}

unfoldable pub create_delete_crane_job : Env → CranePhoto → Action (Unit {0})
unfolding create_task
create_delete_crane_job env photo = do
  modify (mark_deleted photo.id)
  create_task env JobOperation.delete photo.storage_key

-- `if photo is None: return`
unfoldable pub queue_if_found : Env → Option CranePhoto → Action (Unit {0})
unfolding create_delete_crane_job
queue_if_found env none = pure tt
queue_if_found env (some photo) = create_delete_crane_job env photo

unfoldable pub abandon_crane_photo_upload : Env → Option ℕ → Action (Unit {0})
unfolding queue_if_found
abandon_crane_photo_upload env none = pure tt
abandon_crane_photo_upload env (some photo_id) = do
  photo ← query (λ d. find (is_pending_upload photo_id) d.photos)
  queue_if_found env photo

abbrev pub is_active_photo : ℕ → ℕ → CranePhoto → Bool
is_active_photo crane_id photo_id p =
    p.id == photo_id && p.crane_id == crane_id && photo_status_eq p.status CranePhotoStatus.active

unfoldable pub delete_crane_photo : Env → ℕ → ℕ → Action (Unit {0})
unfolding create_delete_crane_job
delete_crane_photo env crane_id photo_id = do
  found ← query (λ d. find (is_active_photo crane_id photo_id) d.photos)
  photo ← or_raise found (resource_not_found "photo" photo_id)
  create_delete_crane_job env photo
