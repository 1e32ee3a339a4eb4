-- ===== src/Photo/Bounds.antt =====
-- What passes the checks of `preupload_crane_photo` and `prepare_image` in app/services/photo.py.
use Prim.Native.String as Text
use crane_tracker.Base.{
  ℕ, ◌≡◌, ◌≤◌, ◌<◌, refl, String, Bool, true, Option, none, some, List, [], ◌∷◌, ◌||◌, ◌&&◌, arith,
  text_eq, eq_iff, Bool-cases, inl, inr, length,
}
use crane_tracker.Errors.{Result, ok, err}
use crane_tracker.Env.{Env, Pillow}
use crane_tracker.Photo.Image.{
  PreparedImage, FormatConfig, prepare_image, inspect, convert, reencode, format_of, image_formats,
  check_output, is_allowed_type, is_content_type_of, max_photo_size_bytes, format_name,
}
use crane_tracker.Photo.Upload.{UploadFile, check_upload}

-- the three kinds of image that are stored, with their extensions
pub is_output : String × String → Bool
is_output (content_type, extension) =
    text_eq content_type "image/jpeg" && text_eq extension ".jpg"
    || text_eq content_type "image/png" && text_eq extension ".png"
    || text_eq content_type "image/webp" && text_eq extension ".webp"

short :
    (content_type extension a b : String)
    → (text_eq content_type a && text_eq extension b) ≡ true
    → Text.count a ≤ 10
    → Text.count b ≤ 5
    → (Text.count content_type ≤ 10) × (Text.count extension ≤ 5)
short content_type extension a b h la lb =
    let is_a = (eq_iff content_type a).0 (ground (arith, h)) in
    let is_b = (eq_iff extension b).0 (ground (arith, h)) in (rw is_a la, rw is_b lb)

-- their lengths
pub is_output-short :
    (content_type extension : String)
    → is_output (content_type, extension) ≡ true
    → (Text.count content_type ≤ 10) × (Text.count extension ≤ 5)
unfolding is_output
is_output-short content_type extension h =
    elim (Bool-cases (text_eq content_type "image/jpeg" && text_eq extension ".jpg")) [
      | inl jpeg ↦ short content_type extension "image/jpeg" ".jpg" jpeg (omega arith) (omega arith)
      | inr other ↦
          elim (Bool-cases (text_eq content_type "image/png" && text_eq extension ".png")) [
            | inl png ↦
                short content_type extension "image/png" ".png" png (omega arith) (omega arith)
            | inr rest ↦
                short content_type extension "image/webp" ".webp" (ground arith) (omega arith)
                  (omega arith)
          ]
    ]

all_output : List (String × FormatConfig) → Bool
all_output [] = true
all_output (f ∷ fs) = is_output (f.1.output_content_type, f.1.extension) && all_output fs

format_of-is_output :
    (name : String) (formats : List (String × FormatConfig)) (c : FormatConfig)
    → all_output formats ≡ true
    → format_of name formats ≡ some c
    → is_output (c.output_content_type, c.extension) ≡ true
unfolding format_of all_output
format_of-is_output name [] c h e = cc
format_of-is_output name (f ∷ fs) c h e = ground (arith, format_of-is_output name fs c)

-- What is stored: at most 10 MB, as one of the three kinds.
pub record IsPrepared (image : PreparedImage) : Type 0 where
  pub size : length image.0 ≤ max_photo_size_bytes
  pub kind : is_output (image.1, image.2) ≡ true

reencoded :
    (pillow : Pillow) (c : FormatConfig) (file : List ℕ) (image : PreparedImage)
    → reencode pillow c file ≡ ok image
    → (length image.0 ≤ max_photo_size_bytes)
      × (image.1 ≡ c.output_content_type)
      × (image.2 ≡ c.extension)
unfolding reencode check_output
reencoded pillow c file image h = ground arith

formats_are_output : all_output image_formats ≡ true
unfolding all_output is_output
formats_are_output = refl

pub converted :
    (pillow : Pillow) (found : Option FormatConfig) (file : List ℕ) (content_type : String)
    (image : PreparedImage)
    → convert pillow found file content_type ≡ ok image
    → (c : FormatConfig) × (found ≡ some c)
      × (is_content_type_of c content_type ≡ true)
      × (reencode pillow c file ≡ ok image)
unfolding convert
converted pillow none file content_type image h = cc
converted pillow (some c) file content_type image h = (c, refl, ground arith, ground arith)

conversion_ok :
    (pillow : Pillow) (name : String) (file : List ℕ) (content_type : String)
    (image : PreparedImage)
    → convert pillow (format_of name image_formats) file content_type ≡ ok image
    → IsPrepared image
conversion_ok pillow name file content_type image h =
    let (c, found, declared, output) =
      converted pillow (format_of name image_formats) file content_type image h in
    let (size, kind, extension) = reencoded pillow c file image output in
    record {
      size = size;
      kind =
          rw (kind, extension) (format_of-is_output name image_formats c formats_are_output found);
    }

-- If `prepare_image` returns an image, then it is at most 10 MB, and its type and extension are those
-- of JPEG, PNG or WebP.
pub prepare_image_ok :
    (pillow : Pillow) (file : List ℕ) (content_type : String) (image : PreparedImage)
    → prepare_image pillow file content_type ≡ ok image
    → IsPrepared image
unfolding prepare_image
prepare_image_ok pillow file content_type image h = go (inspect pillow file) refl
  where
    go : (r : Result (Option String)) → inspect pillow file ≡ r → IsPrepared image
    go (err e) refused = ground (arith, refused, h)
    go (ok name) found =
        conversion_ok pillow (format_name name) file content_type image (ground (arith, found, h))

checked :
    (env : Env) (upload : UploadFile) (image : PreparedImage)
    → check_upload env upload ≡ ok image
    → (is_allowed_type upload.content_type ≡ true)
      × (Text.count upload.filename ≤ 255)
      × (0 < length upload.file)
      × (length upload.file ≤ max_photo_size_bytes)
      × (prepare_image env.pillow upload.file upload.content_type ≡ ok image)
unfolding check_upload
checked env upload image h = ground arith

-- If an upload passes the checks, then its declared type is allowed, its name has at most 255
-- characters, it has from one byte to 10 MB, and what is to be stored is at most 10 MB, with the type
-- and the extension of JPEG, PNG or WebP.
pub check_upload_ok :
    (env : Env) (upload : UploadFile) (image : PreparedImage)
    → check_upload env upload ≡ ok image
    → (is_allowed_type upload.content_type ≡ true)
      × (Text.count upload.filename ≤ 255)
      × (0 < length upload.file)
      × (length upload.file ≤ max_photo_size_bytes)
      × IsPrepared image
check_upload_ok env upload image h =
    let (allowed, name, some_bytes, size, prepared) = checked env upload image h in
    (
      allowed,
      name,
      some_bytes,
      size,
      prepare_image_ok env.pillow upload.file upload.content_type image prepared,
    )
