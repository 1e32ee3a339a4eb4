-- ===== src/Env.antt =====
-- What the program runs on and does not implement: PostGIS, Pillow, boto3, requests, hashing,
-- random tokens and UUIDs. Each is a function whose values the theorems leave open.
use crane_tracker.Base.{ℕ, String, Bool, Option, List}
use crane_tracker.Base.Int.{ℤ}
use crane_tracker.Base.Float.{Float}
use crane_tracker.Models.{Point}
use crane_tracker.Settings.{Settings, UrlLibrary}

-- `ST_MakeEnvelope(west, south, east, north, 4326)`
pub record Envelope : Type 0 where
  pub west : Float
  pub south : Float
  pub east : Float
  pub north : Float

pub record PostGis : Type 0 where
  -- `ST_DWithin` of two geographies, with a distance in metres
  pub st_dwithin : Point → Point → ℕ → Bool
  -- `Crane.location.intersects(bbox)`
  pub intersects : Point → Envelope → Bool

-- `resp.json()`: it raises, or gives a value that is no object, or an object. In that, `address` is a
-- true value that is no object, or it is absent or false, or an object of texts, as Nominatim
-- documents it.
pub data Body : Type 0 where
  no_json no_object no_address_object : Body
  json : Option (List (String × String)) → Body

-- `requests.get(…)`: what it raises, or the status code and the body.
pub data Answer : Type 0 where
  timeout connection_error : Answer
  request_error : String → Answer
  response : ℕ → Body → Answer

pub record Requests : Type 0 where
  pub get : ℤ → ℤ → Answer
  -- whether `raise_for_status` raises an HTTPError at this status code
  pub raises : ℕ → Bool
  -- the truth of a `Response` with this status code
  pub truth : ℕ → Bool
  -- a status code in an f-string
  pub digits : ℕ → String

pub data OutputFormat : Type 0 where
  jpeg png webp : OutputFormat

-- An image of Pillow: `info` is its metadata, such as the EXIF data.
pub record Image : Type 0 where
  pub format : Option String
  pub mode : String
  pub width : ℕ
  pub height : ℕ
  pub info : List (String × String)
  pub pixels : List ℕ

pub data PilError : Type 0 where
  decompression_bomb_error decompression_bomb_warning os_error : PilError
  syntax_error unidentified_image_error value_error : PilError
  other : String → PilError

-- what a call of Pillow returns or raises
pub data Pil (A : Type 0) : Type 0 where
  done : A → Pil A
  raised : PilError → Pil A

-- `save` has the options that the program gives for the format.
pub record Pillow : Type 0 where
  pub open_image : List ℕ → Pil Image
  pub verify : Image → Pil (Unit {0})
  pub exif_transpose : Image → Pil Image
  pub copy : Image → Pil Image
  pub convert : String → Image → Pil Image
  pub save : OutputFormat → Image → Pil (List ℕ)

pub record Crypto : Type 0 where
  pub hmac_sha256 : String → String → String
  -- `hashlib.scrypt` of a password and a salt in hexadecimal, which may not parse
  pub scrypt : String → String → Option String
  pub sha256 : String → String
  pub token_urlsafe : ℕ → String
  pub token_hex : ℕ → String

pub record Env : Type 0 where
  pub settings : Settings
  pub library : UrlLibrary
  pub postgis : PostGis
  pub requests : Requests
  pub pillow : Pillow
  pub crypto : Crypto
  pub uuid7 : ℕ → ℕ
  -- a UUID in an f-string
  pub uuid_str : ℕ → String
  -- whether `boto3.client` accepts the endpoint and the two keys
  pub connects : String → String → String → Bool
  -- `urllib.parse.quote(key, safe="/")`
  pub quote : String → String
  -- `random.uniform(0, backoff)` in microseconds at the given draw
  pub uniform : ℕ → ℕ → ℕ
