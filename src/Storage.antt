-- ===== src/Storage.antt =====
-- The bucket of photos (app/services/storage.py). R2 answers each request from `World.replies`.
pub mod Configured
pub mod Uploads
use Prim.Native.String as Text
use Prim.Native.Char.{code}
use crane_tracker.Base.{
  ℕ, List, String, Bool, true, false, Option, none, some, ◌&&◌, text_eq, ◌==◌, if◌then◌else◌,
}
use crane_tracker.Errors.{Result, ok, err, photo_storage, unexpected}
use crane_tracker.Settings.{Settings}
use crane_tracker.Env.{Env}
use crane_tracker.Exec.{Action, Reply, Request, pure, raise, lift, ask, ◌>>=◌, ◌>>◌}

pub record R2Config : Type 0 where
  pub endpoint_url : String
  pub access_key_id : String
  pub secret_access_key : String
  pub bucket_name : String

-- a setting that `not value` would let through
abbrev pub present : Option String → Option String
present none = none
present (some s) = if text_eq s "" then none else some s

abbrev configured : Option String → (String → Result R2Config) → Result R2Config
configured none rest = err (photo_storage "Photo storage is not configured")
configured (some s) rest = rest s

-- `_get_r2_config`
unfoldable pub get_r2_config : Settings → Result R2Config
get_r2_config s = configured (present s.r2_endpoint_url) λ url.
    configured (present s.r2_access_key_id) λ key.
      configured (present s.r2_secret_access_key) λ secret.
        configured (present s.r2_bucket_name) λ bucket. ok (record {
          endpoint_url = url;
          access_key_id = key;
          secret_access_key = secret;
          bucket_name = bucket;
        })

unfoldable pub connected : Bool → Action (Unit {0})
connected true = pure tt
connected false = raise (photo_storage "Photo storage is not available")

module _ (env : Env) where
  -- `_get_s3_client`
  unfoldable pub get_s3_client : Action (Unit {0})
  unfolding connected
  get_s3_client = do
    config ← lift (get_r2_config env.settings)
    connected (env.connects config.endpoint_url config.access_key_id config.secret_access_key)

  -- the handler round a request to R2
  unfoldable pub checked : String → Reply → Action (Unit {0})
  checked text Reply.done = pure tt
  checked text Reply.refused = raise (photo_storage text)
  checked text (Reply.broken other) = raise (unexpected other)

  unfoldable pub upload_photo : List ℕ → String → String → Action (Unit {0})
  unfolding get_s3_client checked
  upload_photo file object_key content_type = do
    lift (get_r2_config env.settings)
    get_s3_client
    reply ← ask (Request.put object_key content_type file)
    checked "Photo could not be stored" reply

  unfoldable pub delete_photo : String → Action (Unit {0})
  unfolding get_s3_client checked
  delete_photo object_key = do
    lift (get_r2_config env.settings)
    get_s3_client
    reply ← ask (Request.remove object_key)
    checked "Photo could not be deleted" reply

-- `s.rstrip("/")`
unfoldable pub rstrip_slash : String → String
rstrip_slash Text.[] = Text.[]
rstrip_slash (Text.◌∷◌ c s) =
    let rest = rstrip_slash s in
    if text_eq rest "" && code c == b'/' then Text.[] else Text.◌∷◌ c rest

unfoldable pub get_public_url : Env → String → Option String
unfolding rstrip_slash
get_public_url env object_key = elim (present env.settings.r2_public_base_url) [
  | none ↦ none
  | some base ↦ some (Text.◌++◌ (rstrip_slash base) (Text.◌++◌ "/" (env.quote object_key)))
]
