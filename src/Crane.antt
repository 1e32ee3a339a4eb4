-- ===== src/Crane.antt =====
-- The crane service (app/services/crane.py).
pub mod Creation
pub mod Reports
pub mod Listing
pub mod Deletion
use crane_tracker.Base.{
  ℕ, suc, String, Bool, true, false, Option, none, some, List, [], ◌∷◌, map, ◌==◌, ◌||◌, ◌&&◌,
  if◌then◌else◌, length, select, find, any, count, update, take, order_by, descending, ltb, leb,
}
use crane_tracker.Base.Int.{pos, negated}
use crane_tracker.Base.Float.{Float, number, ltb_Float, leb_Float}
use crane_tracker.Models.{
  Crane, CraneStatus, CranePhoto, CranePhotoStatus, Point, Db, photo_status_eq,
}
use crane_tracker.Errors.{
  Result, ok, err, Error, integrity, sql_alchemy, duplicate_crane, duplicate_gone_report,
  geocode_retrieval, invalid_coordinate, resource_not_found,
}
use crane_tracker.Env.{Env, Envelope}
use crane_tracker.Database.{insert_crane, insert_gone_report, delete_crane_row}
use crane_tracker.Exec.{
  Action, pure, raise, lift, gets, query, or_raise, rescue, execute, draw, now, ◌>>=◌, ◌>>◌,
}
use crane_tracker.Geocode.{GeocodeData, reverse_geocode}
use crane_tracker.Schemas.{CraneInput, CraneSummary, CraneListResponse}
use crane_tracker.Storage

abbrev pub crane_list_limit : ℕ
crane_list_limit = 5000

abbrev pub crane_duplicate_distance_meters : ℕ
crane_duplicate_distance_meters = 100

abbrev pub point_of : CraneInput → Point
point_of input = record { lng = input.lng; lat = input.lat }

abbrev pub no_geocode : GeocodeData
no_geocode = record { city = none; neighborhood = none }

-- `except GeocodeRetrievalError`
unfoldable pub geocode_or_none : Result GeocodeData → Result GeocodeData
geocode_or_none (err (geocode_retrieval _)) = ok no_geocode
geocode_or_none r = r

-- the new row: its id, its time and the defaults of its columns
abbrev pub new_crane : CraneInput → GeocodeData → ℕ → ℕ → Crane
new_crane input place id time = record {
  id = id;
  lat = input.lat;
  lng = input.lng;
  location = point_of input;
  project_name = input.project_name;
  status = CraneStatus.active;
  city = place.city;
  neighborhood = place.neighborhood;
  added_at = time;
  updated_at = time;
}

abbrev pub set_gone : ℕ → Crane → Crane
set_gone time c = elim c.status [
  | CraneStatus.active ↦ record c { status = CraneStatus.gone; updated_at = time }
  | CraneStatus.gone ↦ c
]

-- the order of `Crane.photo_records`, by `(added_at, id)`
abbrev pub photo_before : CranePhoto → CranePhoto → Bool
photo_before p q = ltb p.added_at q.added_at || (p.added_at == q.added_at && leb p.id q.id)

-- `crane.photo_records`
abbrev pub photo_records : ℕ → Db → List CranePhoto
photo_records crane_id d = order_by photo_before (select (λ p. p.crane_id == crane_id) d.photos)

module _ (env : Env) where
  -- whether a crane of the table lies within the distance of the point
  abbrev pub has_neighbor : Point → Db → Bool
  has_neighbor point d =
      any (λ c. env.postgis.st_dwithin c.location point crane_duplicate_distance_meters) d.cranes

  unfoldable pub warn_of_duplicate : CraneInput → Action (Unit {0})
  warn_of_duplicate input = do
    possible_duplicate ← query (has_neighbor (point_of input))
    if possible_duplicate then raise duplicate_crane else pure tt

  unfoldable pub create_crane : CraneInput → Bool → Action Crane
  unfolding warn_of_duplicate geocode_or_none
  create_crane input override_duplicate_warning = do
    if override_duplicate_warning then pure tt else warn_of_duplicate input
    place ← lift (geocode_or_none (reverse_geocode env.requests input.lat input.lng))
    id ← draw env.uuid7
    time ← gets now
    execute (insert_crane (new_crane input place id time))
    query (λ _. new_crane input place id time)

  -- `for photo in crane.photo_records: storage_service.delete_photo(…)`
  unfoldable pub delete_objects : List CranePhoto → Action (Unit {0})
  delete_objects [] = pure tt
  delete_objects (photo ∷ photos) =
      let rest = delete_objects photos in Storage.delete_photo env photo.storage_key >> rest

  unfoldable pub delete_crane : ℕ → Action (Unit {0})
  delete_crane id = do
    crane ←
        or_raise (← query (λ d. find (λ c. c.id == id) d.cranes)) (resource_not_found "crane" id)
    photos ← query (photo_records crane.id)
    delete_objects photos
    execute (λ d. ok (delete_crane_row id d))

-- `CranePhoto.status == ACTIVE` and of this crane
abbrev pub active_of : ℕ → CranePhoto → Bool
active_of id p = p.crane_id == id && photo_status_eq p.status CranePhotoStatus.active

-- the crane and its active photos
unfoldable pub get_crane : ℕ → Action (Crane × List CranePhoto)
get_crane id = do
  crane ← or_raise (← query (λ d. find (λ c. c.id == id) d.cranes)) (resource_not_found "crane" id)
  photos ← query (λ d. order_by photo_before (select (active_of id) d.photos))
  pure (crane, photos)

-- `x > bound or x < -bound`
abbrev pub is_outside : ℕ → Float → Bool
is_outside bound x = ltb_Float (number (pos bound)) x || ltb_Float x (number (negated bound))

-- The four checks, in their order. The bounds are 90 and 180 degrees.
unfoldable pub check_bounds : Envelope → Result (Unit {0})
check_bounds box =
    if is_outside 900000000 box.north || is_outside 900000000 box.south
    then err (invalid_coordinate "Latitude must be between -90 and +90")
    else if is_outside 1800000000 box.east || is_outside 1800000000 box.west
    then err (invalid_coordinate "Longitude must be between -180 and +180")
    else if leb_Float box.north box.south
    then err (invalid_coordinate "North must be > South")
    else if leb_Float box.east box.west
    then err (invalid_coordinate "East must be > West")
    else ok tt

-- `CraneSummary.model_validate(crane)` with its photo count
abbrev pub summarize : Db → Crane → CraneSummary
summarize d c = record {
  id = c.id;
  lat = c.lat;
  lng = c.lng;
  project_name = c.project_name;
  status = c.status;
  city = c.city;
  neighborhood = c.neighborhood;
  photos = count (active_of c.id) d.photos;
  contribs = 0;
  added_at = c.added_at;
}

-- the cranes of the box, newest first
abbrev pub cranes_within : Env → Envelope → Db → List Crane
cranes_within env box d =
    order_by (descending (λ c. c.added_at))
      (select (λ c. env.postgis.intersects c.location box) d.cranes)

unfoldable pub get_cranes : Env → Envelope → ℕ → Action CraneListResponse
unfolding check_bounds
get_cranes env box limit = do
  lift (check_bounds box)
  rows ← query (λ d. map (summarize d) (take (suc limit) (cranes_within env box d)))
  pure (record { cranes = take limit rows; truncated = ltb limit (length rows) })

unfoldable pub hash_ip : Env → String → String
hash_ip env ip_address = env.crypto.hmac_sha256 env.settings.ip_hash_salt ip_address

-- `except IntegrityError`
unfoldable pub as_duplicate : ℕ → Error → Action (Unit {0})
as_duplicate crane_id (sql_alchemy integrity) = raise (duplicate_gone_report crane_id)
as_duplicate crane_id e = raise e

abbrev pub or_default : Option ℕ → ℕ → ℕ
or_default none n = n
or_default (some t) n = t

abbrev pub reports_of : ℕ → Db → ℕ
reports_of crane_id d = count (λ r. r.crane_id == crane_id) d.gone_reports

abbrev pub mark_gone : ℕ → ℕ → Db → Db
mark_gone crane_id time d = record d {
  cranes = update (λ c. c.id == crane_id) (set_gone time) d.cranes;
}

-- `gone_report_count and gone_report_count >= threshold`
abbrev pub is_gone_by : ℕ → ℕ → Bool
is_gone_by threshold n = ltb 0 n && leb threshold n

-- the assignment of the status, with its flush and refresh
unfoldable pub settle_status : ℕ → ℕ → Bool → Action (Unit {0})
settle_status crane_id time false = pure tt
settle_status crane_id time true = do execute (λ d. ok (mark_gone crane_id time d)); query (λ _. tt)

unfoldable pub report_crane_as_gone : Env → ℕ → String → Option ℕ → Action (Unit {0})
unfolding hash_ip as_duplicate settle_status
report_crane_as_gone env crane_id client_ip threshold = do
  or_raise (← query (λ d. find (λ c. c.id == crane_id) d.cranes))
      (resource_not_found "crane" crane_id)
  id ← draw env.uuid7
  time ← gets now
  rescue
      (execute (
        insert_gone_report (record {
          id = id;
          crane_id = crane_id;
          reporter_ip_hash = hash_ip env client_ip;
          added_at = time;
        })))
      (as_duplicate crane_id)
  n ← query (reports_of crane_id)
  settle_status crane_id time
      (is_gone_by (or_default threshold env.settings.gone_report_threshold) n)
