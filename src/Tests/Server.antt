-- ===== src/Tests/Server.antt =====
-- The theorems on the application and its logging.
use crane_tracker.Base.{◌≡◌, refl, true, some, ◌⊎◌}
use crane_tracker.Errors.{Error, message, status_code, photo_too_large}
use crane_tracker.Application.{
  Endpoint, route, routes, dispatch, filled, allows, methods, dispatch-filled,
}
use crane_tracker.Application.Responses.{JsonResponse, respond, respond-status_code}
use crane_tracker.Tests.Values.{env, settings, library}

-- `/cranes/7/photos/7`
dispatch-filled_example :
    (dispatch routes
        (route Endpoint.delete_crane_photo).method
        (filled (λ _. "7") (route Endpoint.delete_crane_photo).path)
      ≡ some Endpoint.delete_crane_photo)
    × (allows (methods library settings) (route Endpoint.delete_crane_photo).method ≡ true)
dispatch-filled_example =
    dispatch-filled library settings (λ _. "7") Endpoint.delete_crane_photo refl

abbrev too_many : Error → JsonResponse
too_many _ = record { status_code = 429; detail = "Rate limit exceeded" }

respond-status_code_example :
    ((respond env.uuid_str too_many (photo_too_large "10 MB")).status_code
      ≡ status_code (photo_too_large "10 MB"))
    × (((respond env.uuid_str too_many (photo_too_large "10 MB")).detail
          ≡ message env.uuid_str (photo_too_large "10 MB"))
        ⊎ ((respond env.uuid_str too_many (photo_too_large "10 MB")).status_code ≡ 500)
          × ((respond env.uuid_str too_many (photo_too_large "10 MB")).detail
              ≡ "Internal Server Error"))
respond-status_code_example = respond-status_code env.uuid_str too_many (photo_too_large "10 MB")
