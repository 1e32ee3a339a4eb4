-- ===== src/Storage/Configured.antt =====
-- The validated settings (app/core/config.py) against what app/services/storage.py asks of them.
use crane_tracker.Base.{String, ◌≡◌, refl, true, Option, none, some, [], ◌∷◌, ◌||◌, arith, any}
use crane_tracker.Errors.{ok}
use crane_tracker.Settings.{
  Settings, UrlLibrary, validate_r2_configuration, accepted, is_set, r2_values, is_in, is_empty,
  names,
}
use crane_tracker.Storage.{R2Config, get_r2_config, present}

present-set : (o : Option String) → is_set o ≡ true → (t : String) × (present o ≡ some t)
present-set none h = cc
present-set (some t) h = (t, ground arith)

all_set :
    (library : UrlLibrary) (s : Settings)
    → validate_r2_configuration library s ≡ accepted
    → (is_in ("staging" ∷ "production" ∷ []) (library.lower s.environment)
        || any (λ v. is_set v.1) (r2_values s))
      ≡ true
    → (is_set s.r2_endpoint_url ≡ true)
      × (is_set s.r2_access_key_id ≡ true)
      × (is_set s.r2_secret_access_key ≡ true)
      × (is_set s.r2_bucket_name ≡ true)
unfolding validate_r2_configuration is_empty names
all_set library s h needed = ground arith

-- If the settings are accepted, and the environment is deployed or a value of R2 is set, then
-- storage finds its configuration.
accepted_configures :
    (library : UrlLibrary) (s : Settings)
    → validate_r2_configuration library s ≡ accepted
    → (is_in ("staging" ∷ "production" ∷ []) (library.lower s.environment)
        || any (λ v. is_set v.1) (r2_values s))
      ≡ true
    → (config : R2Config) × (get_r2_config s ≡ ok config)
unfolding get_r2_config
accepted_configures library s h needed =
    let (a, b, c, d) = all_set library s h needed in
    let (url, p) = present-set s.r2_endpoint_url a in
    let (key, q) = present-set s.r2_access_key_id b in
    let (secret, r) = present-set s.r2_secret_access_key c in
    let (bucket, t) = present-set s.r2_bucket_name d in
    (
      record {
        endpoint_url = url;
        access_key_id = key;
        secret_access_key = secret;
        bucket_name = bucket;
      },
      rw (p, q, r, t) refl,
    )
