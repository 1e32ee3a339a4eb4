-- ===== src/Photo/Image.antt =====
-- `prepare_image` of app/services/photo.py, over Pillow as a parameter. A file is its bytes.
use Prim.Native.Nat.{max}
use crane_tracker.Base.{
  ℕ, ◌*◌, String, Bool, Option, none, some, List, [], ◌∷◌, ◌||◌, ltb, text_eq, any, if◌then◌else◌,
  length,
}
use crane_tracker.Errors.{
  Error, Result, ok, err, unexpected, invalid_photo, photo_too_large, unsupported_photo_type,
}
use crane_tracker.Env.{
  OutputFormat, jpeg, png, webp, Image, PilError, other, syntax_error, Pil, done, raised, Pillow,
}

abbrev pub max_photo_size_bytes : ℕ
max_photo_size_bytes = 10 * 1024 * 1024

abbrev pub max_photo_pixels : ℕ
max_photo_pixels = 16_000_000

abbrev pub max_photo_long_edge_pixels : ℕ
max_photo_long_edge_pixels = 4096

-- an entry of `IMAGE_FORMATS`
pub record FormatConfig : Type 0 where
  pub content_types : List String
  pub output_format : OutputFormat
  pub output_content_type : String
  pub extension : String

abbrev pub image_formats : List (String × FormatConfig)
image_formats =
    (
      "HEIF",
      record {
        content_types = "image/heic" ∷ "image/heif" ∷ [];
        output_format = jpeg;
        output_content_type = "image/jpeg";
        extension = ".jpg";
      },
    )
    ∷ (
      "JPEG",
      record {
        content_types = "image/jpeg" ∷ [];
        output_format = jpeg;
        output_content_type = "image/jpeg";
        extension = ".jpg";
      },
    )
    ∷ (
      "PNG",
      record {
        content_types = "image/png" ∷ [];
        output_format = png;
        output_content_type = "image/png";
        extension = ".png";
      },
    )
    ∷ (
      "WEBP",
      record {
        content_types = "image/webp" ∷ [];
        output_format = webp;
        output_content_type = "image/webp";
        extension = ".webp";
      },
    )
    ∷ []

-- `IMAGE_FORMATS.get(name)`
unfoldable pub format_of : String → List (String × FormatConfig) → Option FormatConfig
format_of name [] = none
format_of name ((key, config) ∷ rest) =
    if text_eq key name then some config else format_of name rest

unfoldable pub is_content_type_of : FormatConfig → String → Bool
is_content_type_of config content_type = any (text_eq content_type) config.content_types

-- `ALLOWED_PHOTO_TYPES`
unfoldable pub is_allowed_type : String → Bool
unfolding is_content_type_of
is_allowed_type content_type = any (λ f. is_content_type_of f.1 content_type) image_formats

abbrev pub PreparedImage : Type 0
PreparedImage = List ℕ × String × String

-- `image_format or ""`
abbrev pub format_name : Option String → String
format_name none = ""
format_name (some name) = name

infixl 5 ◌>>=◌ ◌>>◌
abbrev pub ◌>>=◌ : {A B : Type 0} → Result A → (A → Result B) → Result B
ok a >>= f = f a
err e >>= f = err e

abbrev ◌>>◌ : {A B : Type 0} → Result A → Result B → Result B
m >> n = m >>= λ _. n

-- A call within a `try` whose `except` names these exceptions.
abbrev pub within : {A : Type 0} → (PilError → Error) → Pil A → Result A
within handler (done a) = ok a
within handler (raised e) = err (handler e)

-- the two `except` clauses; what they do not name goes on. An UnidentifiedImageError is an OSError.
abbrev pub not_valid : PilError → Error
not_valid (other text) = unexpected text
not_valid _ = invalid_photo "File is not a valid image"

abbrev pub not_processed : PilError → Error
not_processed syntax_error = unexpected "SyntaxError"
not_processed (other text) = unexpected text
not_processed _ = invalid_photo "File could not be safely processed"

-- the limits on an image that was opened
unfoldable pub check_size : Image → Result (Unit {0})
check_size image =
    if ltb max_photo_long_edge_pixels (max image.width image.height)
    then err (photo_too_large "Photo longest edge must be 4,096 pixels or fewer")
    else if ltb max_photo_pixels (image.width * image.height)
    then err (photo_too_large "Photo must contain 16,000,000 pixels or fewer")
    else ok tt

-- `processed.info.clear()`
abbrev pub clear_info : Image → Image
clear_info image = record image { info = [] }

-- the exception of an output that is too large
unfoldable pub check_output : FormatConfig → List ℕ → Result PreparedImage
check_output config output =
    if ltb max_photo_size_bytes (length output)
    then err (photo_too_large "Processed photo must be 10 MB or smaller")
    else ok (output, config.output_content_type, config.extension)

module _ (pillow : Pillow) where
  -- the first half: open, check the size in pixels, verify
  unfoldable pub inspect : List ℕ → Result (Option String)
  unfolding check_size
  inspect file = do
    image ← within not_valid (pillow.open_image file)
    check_size image
    within not_valid (pillow.verify image)
    ok image.format

  -- the mode that the format wants
  unfoldable pub in_mode : OutputFormat → Image → Pil Image
  in_mode jpeg processed = pillow.convert "RGB" processed
  in_mode png processed = done processed
  in_mode webp processed =
      if text_eq processed.mode "RGB" || text_eq processed.mode "RGBA"
      then done processed
      else pillow.convert "RGBA" processed

  -- the second half: without the metadata, in the mode of the format, within the size in bytes
  unfoldable pub reencode : FormatConfig → List ℕ → Result PreparedImage
  unfolding in_mode check_output
  reencode config file = do
    source ← within not_processed (pillow.open_image file)
    transposed ← within not_processed (pillow.exif_transpose source)
    processed ← within not_processed (pillow.copy transposed)
    converted ← within not_processed (in_mode config.output_format (clear_info processed))
    output ← within not_processed (pillow.save config.output_format converted)
    check_output config output

  abbrev mismatch : Result PreparedImage
  mismatch = err (unsupported_photo_type "Photo contents do not match the declared content type")

  -- the format found has to be one that the declared content type names
  unfoldable pub convert : Option FormatConfig → List ℕ → String → Result PreparedImage
  unfolding reencode is_content_type_of
  convert none file content_type = mismatch
  convert (some config) file content_type =
      if is_content_type_of config content_type then reencode config file else mismatch

  unfoldable pub prepare_image : List ℕ → String → Result PreparedImage
  unfolding inspect convert format_of
  prepare_image file content_type = do
    image_format ← inspect file
    convert (format_of (format_name image_format) image_formats) file content_type
