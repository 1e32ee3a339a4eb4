-- ===== src/Application.antt =====
-- The application (app/main.py) with its routes (app/routes/): which handler a request reaches.
pub mod Responses
use crane_tracker.Base.{
  ℕ, ◌≡◌, refl, String, Bool, true, false, Option, none, some, List, [], ◌∷◌, ◌++◌, ◌&&◌, ◌||◌,
  find, text_eq, eq_iff, if◌then◌else◌, Bool-cases, ◌⊎◌, inl, inr, arith,
}
use crane_tracker.Settings.{Settings, UrlLibrary, is_in}

pub data Method : Type 0 where
  get put post delete : Method

abbrev method_eq : Method → Method → Bool
method_eq Method.get Method.get = true
method_eq Method.put Method.put = true
method_eq Method.post Method.post = true
method_eq Method.delete Method.delete = true
method_eq _ _ = false

abbrev method_name : Method → String
method_name Method.get = "GET"
method_name Method.put = "PUT"
method_name Method.post = "POST"
method_name Method.delete = "DELETE"

-- A part of a path: a text, or a parameter in braces.
pub data Segment : Type 0 where
  literal parameter : String → Segment

-- The functions that the decorators of the routers register.
pub data Endpoint : Type 0 where
  login logout create_crane get_crane_photos get_crane get_cranes report_crane_as_gone
        upload_crane_photo delete_crane_photo report_crane_photo healthcheck :
      Endpoint

pub record Route : Type 0 where
  pub method : Method
  pub path : List Segment
  -- the status of a response that is no exception
  pub status_code : ℕ

abbrev pub auth_route : Method → String → ℕ → Route
auth_route method path status = record {
  method = method;
  path = literal "admin" ∷ literal path ∷ [];
  status_code = status;
}

abbrev pub crane_route : Method → List Segment → ℕ → Route
crane_route method path status = record {
  method = method;
  path = literal "cranes" ∷ path;
  status_code = status;
}

abbrev photo_path : List Segment
photo_path = parameter "crane_id" ∷ literal "photos" ∷ parameter "photo_id" ∷ []

abbrev pub route : Endpoint → Route
route Endpoint.login = auth_route Method.post "login" 200
route Endpoint.logout = auth_route Method.post "logout" 204
route Endpoint.create_crane = crane_route Method.post [] 201
route Endpoint.get_crane_photos = crane_route Method.get (literal "photos" ∷ []) 200
route Endpoint.get_crane = crane_route Method.get (parameter "crane_id" ∷ []) 200
route Endpoint.get_cranes = crane_route Method.get [] 200
route Endpoint.report_crane_as_gone =
    crane_route Method.post (parameter "crane_id" ∷ literal "report" ∷ []) 200
route Endpoint.upload_crane_photo =
    crane_route Method.post (parameter "crane_id" ∷ literal "photos" ∷ []) 201
route Endpoint.delete_crane_photo = crane_route Method.delete photo_path 204
route Endpoint.report_crane_photo =
    crane_route Method.post (photo_path ++ literal "report" ∷ []) 201
route Endpoint.healthcheck = record {
  method = Method.get;
  path = literal "health" ∷ [];
  status_code = 200;
}

abbrev auth_router : List Endpoint
auth_router = Endpoint.login ∷ Endpoint.logout ∷ []

abbrev crane_router : List Endpoint
crane_router =
    Endpoint.create_crane ∷ Endpoint.get_crane_photos ∷ Endpoint.get_crane ∷ Endpoint.get_cranes
    ∷ Endpoint.report_crane_as_gone ∷ Endpoint.upload_crane_photo ∷ Endpoint.delete_crane_photo
    ∷ Endpoint.report_crane_photo ∷ []

-- `app.include_router`, three times
abbrev pub routes : List Endpoint
routes = auth_router ++ (crane_router ++ Endpoint.healthcheck ∷ [])

abbrev pub matches : List Segment → List String → Bool
matches [] [] = true
matches (Segment.literal s ∷ path) (part ∷ parts) = text_eq s part && matches path parts
matches (Segment.parameter _ ∷ path) (part ∷ parts) = matches path parts
matches _ _ = false

-- FastAPI takes the first route with the path and the method of the request.
unfoldable pub dispatch : List Endpoint → Method → List String → Option Endpoint
dispatch endpoints method parts =
    find (λ e. method_eq (route e).method method && matches (route e).path parts) endpoints

-- `methods`, of the CORS middleware
unfoldable pub methods : UrlLibrary → Settings → List String
methods library settings =
    if is_in ("dev" ∷ "development" ∷ []) (library.lower settings.environment)
    then "*" ∷ []
    else "GET" ∷ "PUT" ∷ "POST" ∷ "DELETE" ∷ []

-- whether the middleware lets a browser use the method
abbrev pub allows : List String → Method → Bool
allows names method = is_in names "*" || is_in names (method_name method)

-- The parts of a path with its parameters filled in.
abbrev pub filled : (String → String) → List Segment → List String
filled value [] = []
filled value (Segment.literal s ∷ path) = s ∷ filled value path
filled value (Segment.parameter name ∷ path) = value name ∷ filled value path

-- Every route is reached by its own path, whatever its parameters are, except that "photos" is no id
-- of a crane, and in every environment a browser may use its method.
pub dispatch-filled :
    (library : UrlLibrary) (settings : Settings) (value : String → String) (e : Endpoint)
    → text_eq "photos" (value "crane_id") ≡ false
    → (dispatch routes (route e).method (filled value (route e).path) ≡ some e)
      × (allows (methods library settings) (route e).method ≡ true)
unfolding dispatch methods
dispatch-filled library settings value Endpoint.login h = (ground arith, ground arith)
dispatch-filled library settings value Endpoint.logout h = (ground arith, ground arith)
dispatch-filled library settings value Endpoint.create_crane h = (ground arith, ground arith)
dispatch-filled library settings value Endpoint.get_crane_photos h = (ground arith, ground arith)
dispatch-filled library settings value Endpoint.get_crane h = (ground arith, ground arith)
dispatch-filled library settings value Endpoint.get_cranes h = (ground arith, ground arith)
dispatch-filled library settings value Endpoint.report_crane_as_gone h =
    (ground arith, ground arith)
dispatch-filled library settings value Endpoint.upload_crane_photo h = (ground arith, ground arith)
dispatch-filled library settings value Endpoint.delete_crane_photo h = (ground arith, ground arith)
dispatch-filled library settings value Endpoint.report_crane_photo h = (ground arith, ground arith)
dispatch-filled library settings value Endpoint.healthcheck h = (ground arith, ground arith)
