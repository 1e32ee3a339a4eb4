-- ===== src/Settings.antt =====
-- The settings and their validation (app/core/config.py). The counts and delays, which the file
-- declares as `int`, are not negative here.
use crane_tracker.Base.{
  ℕ, String, Bool, true, false, Option, none, some, List, [], ◌∷◌, ◌&&◌, ◌||◌, not, text_eq,
  if◌then◌else◌, select, any, map,
}

pub record Settings : Type 0 where
  pub database_url : String
  pub test_database_url : Option String
  pub environment : String
  pub cors_origins : List String
  pub gone_report_threshold : ℕ
  pub ip_hash_salt : String
  pub admin_token_ttl_seconds : ℕ
  pub r2_endpoint_url : Option String
  pub r2_access_key_id : Option String
  pub r2_secret_access_key : Option String
  pub r2_bucket_name : Option String
  pub r2_public_base_url : Option String
  pub job_batch_size : ℕ
  pub worker_sleep_period : ℕ
  pub max_worker_attempts : ℕ
  pub min_backoff_delay : ℕ
  pub max_backoff_delay : ℕ
  pub photo_reaper_delay : ℕ
  pub lock_lease_window : ℕ

-- Python's truth of a `str | None`.
abbrev pub is_set : Option String → Bool
is_set none = false
is_set (some s) = not (text_eq s "")

-- `urlparse` and `str.lower`, of Python's library.
pub record UrlLibrary : Type 0 where
  pub scheme : String → String
  pub netloc : String → String
  pub lower : String → String

abbrev pub r2_values : Settings → List (String × Option String)
r2_values s =
    ("R2_ENDPOINT_URL", s.r2_endpoint_url)
    ∷ ("R2_ACCESS_KEY_ID", s.r2_access_key_id)
    ∷ ("R2_SECRET_ACCESS_KEY", s.r2_secret_access_key)
    ∷ ("R2_BUCKET_NAME", s.r2_bucket_name)
    ∷ ("R2_PUBLIC_BASE_URL", s.r2_public_base_url)
    ∷ []

abbrev pub is_in : List String → String → Bool
is_in names s = any (text_eq s) names

-- What the validator of a `Settings` does: it returns the settings, or raises a ValueError that
-- lists the names.
pub data Validation : Type 0 where
  accepted : Validation
  incomplete malformed : List String → Validation

unfoldable pub is_empty : List String → Bool
is_empty [] = true
is_empty (_ ∷ _) = false

unfoldable pub names : List (String × Option String) → List String
names = map λ v. v.0

module _ (library : UrlLibrary) where
  unfoldable pub is_valid_url : String → Bool
  is_valid_url value =
      is_in ("http" ∷ "https" ∷ []) (library.scheme value) && is_set (some (library.netloc value))

  unfoldable pub url_is_malformed : Option String → Bool
  unfolding is_valid_url
  url_is_malformed none = false
  url_is_malformed (some value) = is_set (some value) && not (is_valid_url value)

  unfoldable pub url_values : Settings → List (String × Option String)
  url_values s =
      ("R2_ENDPOINT_URL", s.r2_endpoint_url) ∷ ("R2_PUBLIC_BASE_URL", s.r2_public_base_url) ∷ []

  unfoldable pub validate_r2_configuration : Settings → Validation
  unfolding is_empty names url_is_malformed url_values
  validate_r2_configuration s =
      let missing = names (select (λ v. not (is_set v.1)) (r2_values s)) in
      let deployed = is_in ("staging" ∷ "production" ∷ []) (library.lower s.environment) in
      let partially_configured = any (λ v. is_set v.1) (r2_values s) && not (is_empty missing) in
      let bad_urls = names (select (λ v. url_is_malformed v.1) (url_values s)) in
      if (deployed && not (is_empty missing)) || partially_configured
      then incomplete missing
      else if not (is_empty bad_urls)
      then malformed bad_urls
      else accepted
