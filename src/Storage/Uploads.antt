-- ===== src/Storage/Uploads.antt =====
-- What becomes of a request to store an object (`upload_photo` of app/services/storage.py).
use crane_tracker.Base.{
  ℕ, List, [], ◌∷◌, ◌++◌, ◌≡◌, refl, String, ◌⊎◌, inl, inr, Bool, true, false, Bool-cases,
  Option-cases,
}
use crane_tracker.Errors.{Result, ok, err, photo_storage, unexpected}
use crane_tracker.Settings.{Settings}
use crane_tracker.Env.{Env}
use crane_tracker.Exec.{World, Reply, Request, put, lift, ask, pure, raise, next_reply, ◌>>=◌}
use crane_tracker.Storage

config-cases :
    (s : Settings)
    → ((c : Storage.R2Config) × (Storage.get_r2_config s ≡ ok c))
      ⊎ ((t : String) × (Storage.get_r2_config s ≡ err (photo_storage t)))
unfolding Storage.get_r2_config
config-cases s = elim (Option-cases (Storage.present s.r2_endpoint_url)) [
  | inl url ↦ rw url (inr (_, refl))
  | inr (url, set_url) ↦ elim (Option-cases (Storage.present s.r2_access_key_id)) [
    | inl key ↦ rw (set_url, key) (inr (_, refl))
    | inr (key, set_key) ↦ elim (Option-cases (Storage.present s.r2_secret_access_key)) [
      | inl secret ↦ rw (set_url, set_key, secret) (inr (_, refl))
      | inr (secret, set_secret) ↦ elim (Option-cases (Storage.present s.r2_bucket_name)) [
        | inl bucket ↦ rw (set_url, set_key, set_secret, bucket) (inr (_, refl))
        | inr (bucket, set_bucket) ↦ rw (set_url, set_key, set_secret, set_bucket) (inl (_, refl))
      ]
    ]
  ]
]

-- An attempt to store an object changes nothing but what R2 was asked.
abbrev pub Asks : World → World → Type 0
Asks w w' = w' ≡ record w { replies = w'.replies; requests = w'.requests }

-- Whether R2 is configured and its client accepts the configuration.
abbrev pub has_client : Env → Bool
has_client env = elim (Storage.get_r2_config env.settings) [
  | ok c ↦ env.connects c.endpoint_url c.access_key_id c.secret_access_key
  | err _ ↦ false
]

-- How a request to store an object ends, by what R2 replies: the object is stored as it was asked for,
-- or R2 refused or has no client, or the reply is another exception.
abbrev pub Ends : Env → Request → World → Result (Unit {0}) × World → Type 0
Ends env asked w r =
    Asks w r.1
    × ((r.0 ≡ ok tt)
          × (has_client env ≡ true)
          × (next_reply w.replies ≡ Reply.done)
          × (r.1.requests ≡ w.requests ++ asked ∷ [])
        ⊎ ((t : String) × (r.0 ≡ err (photo_storage t))
            × ((has_client env ≡ false) ⊎ (next_reply w.replies ≡ Reply.refused)))
        ⊎ ((t : String) × (r.0 ≡ err (unexpected t))
            × (has_client env ≡ true)
            × (next_reply w.replies ≡ Reply.broken t)))

module _ (env : Env) where
  checked-Ends :
      (asked : Request) (reply : Reply) (w w₁ : World)
      → Asks w w₁
      → w₁.requests ≡ w.requests ++ asked ∷ []
      → has_client env ≡ true
      → next_reply w.replies ≡ reply
      → Ends env asked w (Storage.checked env "Photo could not be stored" reply w₁)
  unfolding Storage.checked pure raise
  checked-Ends asked Reply.done w w₁ h e has said = (h, inl (refl, has, said, e))
  checked-Ends asked Reply.refused w w₁ h e has said = (h, inr (inl (_, refl, inr said)))
  checked-Ends asked (Reply.broken t) w w₁ h e has said = (h, inr (inr (_, refl, has, said)))

  pub upload_photo-Ends :
      (file : List ℕ) (key type : String) (w : World)
      → Ends env (put key type file) w (Storage.upload_photo env file key type w)
  unfolding Storage.upload_photo Storage.get_s3_client Storage.connected lift ◌>>=◌ ask raise pure
  upload_photo-Ends file key type w = elim (config-cases env.settings) [
    | inr (t, none_set) ↦
        let no_client : has_client env ≡ false = rw (has_client, none_set) refl in
        rw none_set (refl, inr (inl (t, refl, inl no_client)))
    | inl (c, set) ↦
        elim (Bool-cases (env.connects c.endpoint_url c.access_key_id c.secret_access_key)) [
          | inr refused ↦
              let no_client : has_client env ≡ false = rw (has_client, set) refused in
              rw (set, refused) (refl, inr (inl (_, refl, inl no_client)))
          | inl connected ↦
              let has : has_client env ≡ true = rw (has_client, set) connected in
              rw (set, connected)
                (checked-Ends (put key type file) (next_reply w.replies) w _ refl refl has refl)
        ]
  ]
