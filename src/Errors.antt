-- ===== src/Errors.antt =====
-- The exceptions (app/core/exceptions.py) and the responses that the handlers of
-- app/core/exception_handlers.py, registered in app/main.py, give for them.
use Prim.Native.String.{◌++◌}
use crane_tracker.Base.{ℕ, String, ◌≡◌}

pub data SqlError : Type 0 where
  integrity data_error operational : SqlError

pub data Error : Type 0 where
  resource_not_found : String → ℕ → Error
  invalid_coordinate : String → Error
  geocode_retrieval : String → Error
  duplicate_gone_report : ℕ → Error
  duplicate_crane : Error
  invalid_photo : String → Error
  photo_too_large : String → Error
  unsupported_photo_type : String → Error
  photo_limit_exceeded : ℕ → ℕ → Error
  photo_storage : String → Error
  photo_upload_race : Error
  sql_alchemy : SqlError → Error
  http : ℕ → String → Error
  -- an exception of a library that is no exception of the program's, with its text
  unexpected : String → Error

-- What a function returns, or raises.
pub data Result {ℓ} (A : Type ℓ) : Type ℓ where
  ok : A → Result A
  err : Error → Result A

pub ok-injective {ℓ} : {A : Type ℓ} {a b : A} → ok a ≡ ok b → a ≡ b
ok-injective h = cc

-- `str(exc)`, where `identifier` prints a UUID.
unfoldable pub message : (ℕ → String) → Error → String
message identifier (resource_not_found resource id) =
    "Resource (" ++ (resource ++ (") not found for " ++ identifier id))
message identifier (invalid_coordinate text) = text
message identifier (geocode_retrieval text) = "Geocode API request failed for " ++ text
message identifier (duplicate_gone_report _) =
    "Duplicate gone reports submitted by same IP for same crane"
message identifier duplicate_crane = "Possible duplicate crane entry. Ensure it is a new crane"
message identifier (invalid_photo text) = text
message identifier (photo_too_large text) = text
message identifier (unsupported_photo_type text) = text
message identifier (photo_limit_exceeded _ _) = "A crane can have at most 3 photos"
message identifier (photo_storage text) = text
message identifier photo_upload_race = "Race error during photo upload. Try again."
message identifier (sql_alchemy _) = "Internal Server Error"
message identifier (http _ detail) = detail
message identifier (unexpected text) = text

-- The status of the response; an exception with no handler is a 500 of the server.
unfoldable pub status_code : Error → ℕ
status_code (resource_not_found _ _) = 404
status_code (duplicate_gone_report _) = 409
status_code duplicate_crane = 409
status_code (invalid_photo _) = 422
status_code (photo_too_large _) = 413
status_code (unsupported_photo_type _) = 415
status_code (photo_limit_exceeded _ _) = 409
status_code (sql_alchemy _) = 500
status_code (http code _) = code
status_code (invalid_coordinate _) = 500
status_code (geocode_retrieval _) = 500
status_code (photo_storage _) = 500
status_code photo_upload_race = 500
status_code (unexpected _) = 500
