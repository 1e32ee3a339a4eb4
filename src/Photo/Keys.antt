-- ===== src/Photo/Keys.antt =====
-- The storage keys of photos (`create_storage_key` of app/services/photo.py) and the columns of their
-- rows.
use Prim.Native.String as Text
use Prim.Native.String.{◌++◌}
use text.Mathlib.TextLemmas.{append_inj, append_cancel_left, length-append}
use crane_tracker.Base.{
  ℕ, ◌≡◌, ◌≤◌, sym, ◌∙◌, String, Bool, true, false, ◌⊎◌, inl, inr, Bool-cases, text_eq, eq_iff,
  arith,
}
use crane_tracker.Errors.{ok}
use crane_tracker.Env.{Env}
use crane_tracker.Photo.Image.{PreparedImage}
use crane_tracker.Photo.Upload.{UploadFile, check_upload, create_storage_key, pending_photo}
use crane_tracker.Photo.Bounds.{check_upload_ok, is_output-short}

-- What is said of `str(uuid)`, for the numbers that are UUIDs: it has 36 characters, and no other UUID
-- has the same.
pub record PrintsUuids (uuid_str : ℕ → String) (is_uuid : ℕ → Bool) : Type 0 where
  pub count : (id : ℕ) → is_uuid id ≡ true → Text.count (uuid_str id) ≡ 36
  pub injective :
      (id id' : ℕ) → is_uuid id ≡ true → is_uuid id' ≡ true → uuid_str id ≡ uuid_str id' → id ≡ id'

create_storage_key-injective :
    (uuid_str : ℕ → String) (is_uuid : ℕ → Bool) (c c' id id' : ℕ) (e e' : String)
    → PrintsUuids uuid_str is_uuid
    → is_uuid c ≡ true
    → is_uuid c' ≡ true
    → is_uuid id ≡ true
    → is_uuid id' ≡ true
    → create_storage_key uuid_str c id e ≡ create_storage_key uuid_str c' id' e'
    → (c ≡ c') × (id ≡ id')
unfolding create_storage_key
create_storage_key-injective uuid_str is_uuid c c' id id' e e' prints u u' v v' h =
    let (crane, rest) =
      append_inj (append_cancel_left "cranes/" _ _ h)
        (prints.count c u ∙ sym (prints.count c' u')) in
    let (photo, _) =
      append_inj (append_cancel_left "/photos/" _ _ rest)
        (prints.count id v ∙ sym (prints.count id' v')) in
    (prints.injective c c' u u' crane, prints.injective id id' v v' photo)

create_storage_key-count :
    (uuid_str : ℕ → String) (is_uuid : ℕ → Bool) (c id : ℕ) (e : String)
    → PrintsUuids uuid_str is_uuid
    → is_uuid c ≡ true
    → is_uuid id ≡ true
    → Text.count e ≤ 5
    → Text.count (create_storage_key uuid_str c id e) ≤ 1024
unfolding create_storage_key
create_storage_key-count uuid_str is_uuid c id e prints u v short = omega (
  arith,
  prints.count c u,
  prints.count id v,
  length-append "cranes/" (uuid_str c ++ ("/photos/" ++ (uuid_str id ++ e))),
  length-append (uuid_str c) ("/photos/" ++ (uuid_str id ++ e)),
  length-append "/photos/" (uuid_str id ++ e),
  length-append (uuid_str id) e,
)

-- If UUIDs are printed in 36 characters, and no two alike, then the row of an upload that passes the
-- checks fits its columns, of 1024, 255 and 100 characters, and the rows of two uploads
-- have one storage key only if they are of the same crane and the same photo.
pub pending_photo_fits :
    (env : Env) (is_uuid : ℕ → Bool) (crane crane' id id' time time' : ℕ)
    (upload upload' : UploadFile) (image image' : PreparedImage)
    → PrintsUuids env.uuid_str is_uuid
    → is_uuid crane ≡ true
    → is_uuid crane' ≡ true
    → is_uuid id ≡ true
    → is_uuid id' ≡ true
    → check_upload env upload ≡ ok image
    → let row = pending_photo env crane upload image id time in
      let row' = pending_photo env crane' upload' image' id' time' in
      (Text.count row.storage_key ≤ 1024)
      × (Text.count row.original_filename ≤ 255)
      × (Text.count row.content_type ≤ 100)
      × ((text_eq row.storage_key row'.storage_key ≡ false) ⊎ (crane ≡ crane') × (id ≡ id'))
pending_photo_fits env is_uuid crane crane' id id' time time' upload upload' image image' prints u
      u' v v' passes =
    let (_, name, _, _, prepared) = check_upload_ok env upload image passes in
    let (kind, extension) = is_output-short image.1 image.2 prepared.kind in
    let key = create_storage_key env.uuid_str crane id image.2 in
    let key' = create_storage_key env.uuid_str crane' id' image'.2 in
    (
      create_storage_key-count env.uuid_str is_uuid crane id image.2 prints u v extension,
      name,
      omega (arith, kind),
      elim (Bool-cases (text_eq key key')) [
        | inr apart ↦ inl apart
        | inl same ↦ inr (
            create_storage_key-injective env.uuid_str is_uuid crane crane' id id' image.2 image'.2
              prints u u' v v' ((eq_iff key key').0 same))
      ],
    )
