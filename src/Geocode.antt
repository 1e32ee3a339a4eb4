-- ===== src/Geocode.antt =====
-- Reverse geocoding (app/services/geocode.py).
use Prim.Native.String.{◌++◌}
use crane_tracker.Base.{ℕ, String, Option, none, some, List, [], ◌∷◌, text_eq, if◌then◌else◌}
use crane_tracker.Base.Int.{ℤ}
use crane_tracker.Errors.{Result, ok, err, geocode_retrieval, unexpected}
use crane_tracker.Env.{Requests, Answer, Body}

pub record GeocodeData : Type 0 where
  pub city : Option String
  pub neighborhood : Option String

abbrev pub Address : Type 0
Address = List (String × String)

-- `address.get(field)`
abbrev pub get : Address → String → Option String
get [] field = none
get ((name, value) ∷ rest) field = if text_eq name field then some value else get rest field

-- The first field, in order, that is there and not empty.
unfoldable pub first_of_fields : List String → Address → Option String
first_of_fields [] address = none
first_of_fields (field ∷ fields) address = elim (get address field) [
  | none ↦ first_of_fields fields address
  | some value ↦ if text_eq value "" then first_of_fields fields address else some value
]

abbrev pub neighborhood_fields : List String
neighborhood_fields =
    "neighbourhood" ∷ "quarter" ∷ "suburb" ∷ "city_district" ∷ "borough" ∷ "district" ∷ []

abbrev pub city_fields : List String
city_fields = "city" ∷ "town" ∷ "village" ∷ "municipality" ∷ []

unfoldable pub extract_neighborhood : Address → Option String
unfolding first_of_fields
extract_neighborhood = first_of_fields neighborhood_fields

unfoldable pub extract_city : Address → Option String
unfolding first_of_fields
extract_city = first_of_fields city_fields

-- the AttributeError of `resp.json().get` and of `address.get`, which nothing catches
abbrev pub no_get : String
no_get = "object has no attribute 'get'"

-- the part of `reverse_geocode` that reads the body of the response
unfoldable pub read_body : Body → Result GeocodeData
unfolding extract_city extract_neighborhood
read_body Body.no_object = err (unexpected no_get)
read_body Body.no_address_object = err (unexpected no_get)
read_body Body.no_json = err (geocode_retrieval "JSON parse")
read_body (Body.json none) = ok (record { city = none; neighborhood = none })
read_body (Body.json (some [])) = ok (record { city = none; neighborhood = none })
read_body (Body.json (some (entry ∷ rest))) = ok (record {
  city = extract_city (entry ∷ rest);
  neighborhood = extract_neighborhood (entry ∷ rest);
})

-- the handler of the HTTPError, with its `e.response.status_code if e.response else "unknown"`
unfoldable pub bad_status : Requests → ℕ → String
bad_status requests code =
    "bad status " ++ (if requests.truth code then requests.digits code else "unknown")

unfoldable pub read_answer : Requests → Answer → Result GeocodeData
unfolding bad_status read_body
read_answer requests Answer.timeout = err (geocode_retrieval "timeout 5 seconds")
read_answer requests Answer.connection_error = err (geocode_retrieval "connection error")
read_answer requests (Answer.request_error text) =
    err (geocode_retrieval ("request error " ++ text))
read_answer requests (Answer.response code body) =
    if requests.raises code
    then err (geocode_retrieval (bad_status requests code))
    else read_body body

unfoldable pub reverse_geocode : Requests → ℤ → ℤ → Result GeocodeData
unfolding read_answer
reverse_geocode requests lat lng = read_answer requests (requests.get lat lng)
