-- ===== src/Routes/Cranes.antt =====
-- The handlers of cranes in app/routes/crane.py. A handler runs on the session of its request.
use crane_tracker.Base.{ℕ, String, Bool, Option, none, some, map, length, if◌then◌else◌}
use crane_tracker.Models.{Crane, CranePhoto}
use crane_tracker.Errors.{Error, invalid_coordinate, http}
use crane_tracker.Schemas.{
  CranePhotoResponse, CraneDetail, CraneListResponse, CreateCraneRequest, in_range,
}
use crane_tracker.Env.{Env, Envelope}
use crane_tracker.Exec.{Action, pure, raise, rescue, commit, request, ◌>>=◌, ◌>>◌}
use crane_tracker.Crane as Service
use crane_tracker.Storage.{get_public_url}

unfoldable pub serialize_crane_photo : Env → CranePhoto → CranePhotoResponse
serialize_crane_photo env photo = record {
  id = photo.id;
  crane_id = photo.crane_id;
  url = get_public_url env photo.storage_key;
  original_filename = photo.original_filename;
  content_type = photo.content_type;
  added_at = photo.added_at;
}

-- a body that the schema refuses is answered by FastAPI
unfoldable pub validated : {A : Type 0} → Bool → Action A → Action A
validated valid m = if valid then m else raise (http 422 "Unprocessable Content")

unfoldable pub create_crane : Env → CreateCraneRequest → Action Crane
unfolding validated
create_crane env create_request = request (
    validated (in_range create_request.input) (do
      crane ←
          Service.create_crane env create_request.input create_request.override_duplicate_warning
      commit
      pure crane))

unfoldable pub get_crane : Env → ℕ → Action CraneDetail
unfolding serialize_crane_photo
get_crane env crane_id = request do
  (crane, photo_records) ← Service.get_crane crane_id
  pure (record {
    summary = record {
      id = crane.id;
      lat = crane.lat;
      lng = crane.lng;
      project_name = crane.project_name;
      status = crane.status;
      city = crane.city;
      neighborhood = crane.neighborhood;
      photos = length photo_records;
      contribs = 0;
      added_at = crane.added_at;
    };
    photo_items = map (serialize_crane_photo env) photo_records;
  })

-- `except InvalidCoordinateError`
unfoldable pub as_unprocessable : {A : Type 0} → Error → Action A
as_unprocessable (invalid_coordinate text) = raise (http 422 text)
as_unprocessable e = raise e

unfoldable pub get_cranes : Env → Envelope → Action CraneListResponse
unfolding as_unprocessable
get_cranes env box =
    request (rescue (Service.get_cranes env box Service.crane_list_limit) as_unprocessable)

abbrev pub no_host : String
no_host = "could not identify host to record report"

-- `request.client.host if request.client else None`
unfoldable pub report_from : Env → ℕ → Option String → Action (Unit {0})
report_from env crane_id none = raise (http 400 no_host)
report_from env crane_id (some client_ip) =
    Service.report_crane_as_gone env crane_id client_ip none >> commit

unfoldable pub report_crane_as_gone : Env → ℕ → Option String → Action (Unit {0})
unfolding report_from
report_crane_as_gone env crane_id client_host = request (report_from env crane_id client_host)
