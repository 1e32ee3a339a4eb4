-- ===== src/Application/Responses.antt =====
-- The exception handlers that app/main.py registers, and the responses of
-- app/core/exception_handlers.py.
use crane_tracker.Base.{ℕ, ◌≡◌, refl, String, Option, none, some, List, [], ◌∷◌, ◌⊎◌, inl, inr}
use crane_tracker.Errors.{Error, message, status_code}

-- The classes of the exceptions that a route may raise; `exception` is the base class.
pub data ErrorClass : Type 0 where
  resource_not_found_error invalid_coordinate_error geocode_retrieval_error : ErrorClass
  duplicate_gone_report_error duplicate_crane_error : ErrorClass
  invalid_photo_error photo_too_large_error unsupported_photo_type_error : ErrorClass
  photo_limit_exceeded_error photo_storage_error photo_upload_race_error : ErrorClass
  sql_alchemy_error http_exception rate_limit_exceeded exception : ErrorClass

abbrev pub class_of : Error → ErrorClass
class_of (Error.resource_not_found _ _) = resource_not_found_error
class_of (Error.invalid_coordinate _) = invalid_coordinate_error
class_of (Error.geocode_retrieval _) = geocode_retrieval_error
class_of (Error.duplicate_gone_report _) = duplicate_gone_report_error
class_of Error.duplicate_crane = duplicate_crane_error
class_of (Error.invalid_photo _) = invalid_photo_error
class_of (Error.photo_too_large _) = photo_too_large_error
class_of (Error.unsupported_photo_type _) = unsupported_photo_type_error
class_of (Error.photo_limit_exceeded _ _) = photo_limit_exceeded_error
class_of (Error.photo_storage _) = photo_storage_error
class_of Error.photo_upload_race = photo_upload_race_error
class_of (Error.sql_alchemy _) = sql_alchemy_error
class_of (Error.http _ _) = http_exception
class_of (Error.unexpected _) = exception

-- `cls.__mro__`, up to the base class
unfoldable pub mro : ErrorClass → List ErrorClass
mro photo_too_large_error = photo_too_large_error ∷ invalid_photo_error ∷ exception ∷ []
mro unsupported_photo_type_error =
    unsupported_photo_type_error ∷ invalid_photo_error ∷ exception ∷ []
mro rate_limit_exceeded = rate_limit_exceeded ∷ http_exception ∷ exception ∷ []
mro exception = exception ∷ []
mro c = c ∷ exception ∷ []

pub data Handler : Type 0 where
  rate_limit_exceeded_handler http_exception_handler : Handler
  duplicate_crane_error_handler resource_not_found_error_handler : Handler
  duplicate_gone_report_error_handler invalid_photo_error_handler : Handler
  photo_limit_exceeded_error_handler sql_alchemy_error_handler : Handler

-- the handler of a class, where one is registered; that of HTTPException is FastAPI's
unfoldable pub exception_handlers : ErrorClass → Option Handler
exception_handlers rate_limit_exceeded = some rate_limit_exceeded_handler
exception_handlers duplicate_crane_error = some duplicate_crane_error_handler
exception_handlers resource_not_found_error = some resource_not_found_error_handler
exception_handlers duplicate_gone_report_error = some duplicate_gone_report_error_handler
exception_handlers invalid_photo_error = some invalid_photo_error_handler
exception_handlers photo_limit_exceeded_error = some photo_limit_exceeded_error_handler
exception_handlers sql_alchemy_error = some sql_alchemy_error_handler
exception_handlers http_exception = some http_exception_handler
exception_handlers _ = none

-- The handler of the nearest class that has one.
unfoldable pub lookup_handler : List ErrorClass → Option Handler
unfolding exception_handlers
lookup_handler [] = none
lookup_handler (c ∷ cs) = elim (exception_handlers c) [
  | some handler ↦ some handler
  | none ↦ lookup_handler cs
]

-- `InvalidPhotoError.status_code` and those of its subclasses
unfoldable pub photo_status_code : ErrorClass → ℕ
photo_status_code photo_too_large_error = 413
photo_status_code unsupported_photo_type_error = 415
photo_status_code _ = 422

-- the status and the `detail` of a `JSONResponse`
pub record JsonResponse : Type 0 where
  pub status_code : ℕ
  pub detail : String

-- An HTTPException has its own status and detail.
unfoldable pub http_response : Error → JsonResponse
http_response (Error.http code detail) = record { status_code = code; detail = detail }
http_response _ = record { status_code = 500; detail = "Internal Server Error" }

module _ (identifier : ℕ → String) (too_many_requests : Error → JsonResponse) where
  unfoldable pub handle : Handler → Error → JsonResponse
  unfolding photo_status_code http_response
  handle rate_limit_exceeded_handler exc = too_many_requests exc
  handle http_exception_handler exc = http_response exc
  handle duplicate_crane_error_handler exc = record {
    status_code = 409;
    detail = message identifier exc;
  }
  handle resource_not_found_error_handler exc = record {
    status_code = 404;
    detail = message identifier exc;
  }
  handle duplicate_gone_report_error_handler exc = record {
    status_code = 409;
    detail = message identifier exc;
  }
  handle invalid_photo_error_handler exc = record {
    status_code = photo_status_code (class_of exc);
    detail = message identifier exc;
  }
  handle photo_limit_exceeded_error_handler exc = record {
    status_code = 409;
    detail = message identifier exc;
  }
  handle sql_alchemy_error_handler exc = record {
    status_code = 500;
    detail = "Internal Server Error";
  }

  -- An exception that no handler takes is the server's 500.
  unfoldable pub answer : Option Handler → Error → JsonResponse
  unfolding handle
  answer none exc = record { status_code = 500; detail = "Internal Server Error" }
  answer (some handler) exc = handle handler exc

  unfoldable pub respond : Error → JsonResponse
  unfolding mro lookup_handler answer
  respond exc = answer (lookup_handler (mro (class_of exc))) exc

  -- Every exception of a route is answered with its status, by the handler of its class or of the
  -- nearest base class; the answer has the text of the exception, or it is a 500 that shows nothing
  -- of it.
  pub respond-status_code :
      (exc : Error)
      → ((respond exc).status_code ≡ status_code exc)
        × (((respond exc).detail ≡ message identifier exc)
            ⊎ ((respond exc).status_code ≡ 500) × ((respond exc).detail ≡ "Internal Server Error"))
  unfolding respond answer handle lookup_handler mro exception_handlers photo_status_code
      http_response status_code message
  respond-status_code (Error.resource_not_found _ _) = (refl, inl refl)
  respond-status_code (Error.invalid_coordinate _) = (refl, inr (refl, refl))
  respond-status_code (Error.geocode_retrieval _) = (refl, inr (refl, refl))
  respond-status_code (Error.duplicate_gone_report _) = (refl, inl refl)
  respond-status_code Error.duplicate_crane = (refl, inl refl)
  respond-status_code (Error.invalid_photo _) = (refl, inl refl)
  respond-status_code (Error.photo_too_large _) = (refl, inl refl)
  respond-status_code (Error.unsupported_photo_type _) = (refl, inl refl)
  respond-status_code (Error.photo_limit_exceeded _ _) = (refl, inl refl)
  respond-status_code (Error.photo_storage _) = (refl, inr (refl, refl))
  respond-status_code Error.photo_upload_race = (refl, inr (refl, refl))
  respond-status_code (Error.sql_alchemy _) = (refl, inr (refl, refl))
  respond-status_code (Error.http _ _) = (refl, inl refl)
  respond-status_code (Error.unexpected _) = (refl, inr (refl, refl))
