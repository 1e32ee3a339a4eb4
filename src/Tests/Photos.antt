-- ===== src/Tests/Photos.antt =====
-- The theorems on photos and their storage.
use Prim.Native.String as Text
use crane_tracker.Base.{
  eq_iff, sym, ◌∙◌, zero, suc, inl, inr, ap, ltb, text_eq, ◌==◌, ◌⊎◌, String, Bool, arith,
  if◌then◌else◌, ℕ, ◌≡◌, ◌≤◌, ◌<◌, refl, true, false, Option, none, some, [], ◌∷◌, take, drop,
}
use crane_tracker.Models.{CranePhoto, CranePhotoStatus}
use crane_tracker.Errors.{ok}
use crane_tracker.Exec.{World, Reply, query, lift, draw, gets, execute, commit, ◌>>=◌}
use crane_tracker.Database.{insert_photo}
use crane_tracker.Routes.Photos.{begin_upload, upload_crane_photo, RequestFile, upload_of}
use crane_tracker.Routes.Uploads.{Ended, upload_crane_photo_ends}
use crane_tracker.Photo.Image.{
  PreparedImage, is_allowed_type, prepare_image, inspect, convert, reencode, format_of,
  is_content_type_of, max_photo_size_bytes,
}
use crane_tracker.Photo.Upload.{
  check_upload, pending_photo, preupload_crane_photo, ensure_crane_photo_capacity, insert_upload,
  create_storage_key,
}
use crane_tracker.Photo.Review.{get_crane_photos, listing}
use crane_tracker.Photo.Paging.{get_crane_photos_continue}
use crane_tracker.Photo.Keys.{PrintsUuids, pending_photo_fits}
use crane_tracker.Env.{Env}
use crane_tracker.Photo.Stripped.{Converts, IsStripped, prepare_image-IsStripped}
use crane_tracker.Photo.Bounds.{IsPrepared, check_upload_ok}
use crane_tracker.Tests.Values.{env, photo, tables, world, upload}

abbrev newest : CranePhoto
newest = photo 6 CranePhotoStatus.active "k6"

abbrev oldest : CranePhoto
oldest = photo 4 CranePhotoStatus.active "k4"

abbrev pages : Option ℕ → World
pages cursor = (get_crane_photos cursor 1 false world).1

first_page : get_crane_photos none 1 false world ≡ (ok (newest ∷ oldest ∷ []), pages none)
unfolding get_crane_photos listing query
first_page = refl

second_page : get_crane_photos (some 6) 1 false world ≡ (ok (oldest ∷ []), pages (some 6))
unfolding get_crane_photos listing query
second_page = refl

get_crane_photos_continue_example :
    (newest ∷ [] ≡ take 1 (listing false none tables))
    × (oldest ∷ [] ≡ take 2 (drop 1 (listing false none tables)))
get_crane_photos_continue_example =
    get_crane_photos_continue false none 1 1 world (pages none) world (pages (some 6))
      (newest ∷ oldest ∷ []) (oldest ∷ []) newest refl first_page refl refl second_page

abbrev prepared : PreparedImage
prepared = (1 ∷ 2 ∷ 3 ∷ [], "image/png", ".png")

accepts : check_upload env upload ≡ ok prepared
unfolding check_upload prepare_image inspect convert reencode format_of is_content_type_of
    is_allowed_type
accepts = refl

check_upload_ok_example :
    (is_allowed_type "image/png" ≡ true)
    × (Text.count "b.png" ≤ 255)
    × (0 < 3)
    × (3 ≤ max_photo_size_bytes)
    × IsPrepared prepared
check_upload_ok_example = check_upload_ok env upload prepared accepts

converts : Converts env.pillow
converts = record { mode = λ m i j h. ground (arith, h); info = λ m i j h e. ground (arith, h, e) }

prepares : prepare_image env.pillow (1 ∷ 2 ∷ 3 ∷ []) "image/png" ≡ ok prepared
unfolding prepare_image inspect convert reencode format_of is_content_type_of
prepares = refl

prepare_image-IsStripped_example : IsStripped env.pillow prepared
prepare_image-IsStripped_example =
    prepare_image-IsStripped env.pillow (1 ∷ 2 ∷ 3 ∷ []) "image/png" prepared converts prepares

-- R2 refuses to store the photo.
abbrev refusing : World
refusing = record world { replies = Reply.refused ∷ [] }

abbrev new_photo : CranePhoto
new_photo = pending_photo env 1 upload prepared 100 50

-- the request that carries the file of `upload`
abbrev request_file : RequestFile
request_file = record {
  file = upload.file;
  filename = some upload.filename;
  content_type = some upload.content_type;
}

abbrev begins : World
begins = (begin_upload env 1 (upload_of request_file) refusing).1

begun : begin_upload env 1 (upload_of request_file) refusing ≡ (ok (new_photo, prepared.0), begins)
unfolding begin_upload preupload_crane_photo ensure_crane_photo_capacity insert_upload insert_photo
    create_storage_key check_upload prepare_image inspect convert reencode format_of
    is_content_type_of is_allowed_type ◌>>=◌ lift query draw gets execute commit
begun = refl

upload_crane_photo_ends_example :
    Ended env new_photo prepared.0 begins
      (upload_crane_photo env 1 request_file refusing).0
      (upload_crane_photo env 1 request_file refusing).1.requests
      (upload_crane_photo env 1 request_file refusing).1.committed
unfolding begin_upload ◌>>=◌ preupload_crane_photo query draw execute insert_photo
    create_storage_key commit
upload_crane_photo_ends_example =
    upload_crane_photo_ends env 1 request_file new_photo prepared.0 refusing begins begun refl refl

-- Two UUIDs.
abbrev is_uuid : ℕ → Bool
is_uuid n = ltb n 2

abbrev uuid_str : ℕ → String
uuid_str n =
    if n == 0
    then "00000000-0000-7000-8000-000000000000"
    else "10000000-0000-7000-8000-000000000000"

below_two : (n : ℕ) → is_uuid n ≡ true → (n ≡ zero) ⊎ (n ≡ suc zero)
below_two n h = ground (arith, h)

absurd : (id id' : ℕ) → false ≡ true → id ≡ id'
absurd id id' h = cc

apart : (id id' : ℕ) → uuid_str zero ≡ uuid_str (suc zero) → id ≡ id'
apart id id' h = absurd id id' ((eq_iff (uuid_str zero) (uuid_str (suc zero))).1 h)

prints : PrintsUuids uuid_str is_uuid
prints = record {
  count = λ id u. elim (below_two id u) [ inl z ↦ rw z refl | inr o ↦ rw o refl ];
  injective = λ id id' u u' h. elim (below_two id u) [
    | inl z ↦ elim (below_two id' u') [
      | inl z' ↦ z ∙ sym z'
      | inr o' ↦ apart id id' (ap uuid_str (sym z) ∙ h ∙ ap uuid_str o')
    ]
    | inr o ↦ elim (below_two id' u') [
      | inl z' ↦ sym (apart id' id (ap uuid_str (sym z') ∙ sym h ∙ ap uuid_str o))
      | inr o' ↦ o ∙ sym o'
    ]
  ];
}

abbrev old_id : ℕ
old_id = 0

abbrev new_id : ℕ
new_id = 1

abbrev printing : Env
printing = record env { uuid_str = uuid_str }

accepts_too : check_upload printing upload ≡ ok prepared
unfolding check_upload prepare_image inspect convert reencode format_of is_content_type_of
    is_allowed_type
accepts_too = refl

pending_photo_fits_example :
    (Text.count (pending_photo printing old_id upload prepared new_id 50).storage_key ≤ 1024)
    × (Text.count "b.png" ≤ 255)
    × (Text.count "image/png" ≤ 100)
    × ((text_eq
            (pending_photo printing old_id upload prepared new_id 50).storage_key
            (pending_photo printing old_id upload prepared old_id 50).storage_key
          ≡ false)
        ⊎ (old_id ≡ old_id) × (new_id ≡ old_id))
pending_photo_fits_example =
    pending_photo_fits printing is_uuid old_id old_id new_id old_id 50 50 upload upload prepared
      prepared prints refl refl refl refl accepts_too
