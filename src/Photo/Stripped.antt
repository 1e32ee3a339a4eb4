-- ===== src/Photo/Stripped.antt =====
-- What `prepare_image` of app/services/photo.py hands to Pillow to be stored.
use crane_tracker.Base.{
  ℕ, ◌≡◌, refl, sym, ap, ◌∙◌, String, Bool, true, Option, some, List, [], ◌∷◌, ◌||◌, arith, text_eq,
  eq_iff, Bool-cases, inl, inr, all, subst,
}
use crane_tracker.Errors.{Result, ok, err, Error}
use crane_tracker.Env.{OutputFormat, jpeg, png, webp, Image, PilError, Pil, done, raised, Pillow}
use crane_tracker.Photo.Image.{
  PreparedImage, FormatConfig, prepare_image, inspect, reencode, format_of, format_name,
  image_formats, in_mode, clear_info, check_output, within, not_processed, ◌>>=◌,
}
use crane_tracker.Photo.Bounds.{converted}

-- What is said of `Image.convert`: the copy has the mode, and no metadata that its source had not.
pub record Converts (pillow : Pillow) : Type 0 where
  pub mode : (m : String) (i j : Image) → pillow.convert m i ≡ done j → j.mode ≡ m
  pub info : (m : String) (i j : Image) → pillow.convert m i ≡ done j → i.info ≡ [] → j.info ≡ []

-- the content type of a format, and the modes that it stores
abbrev pub type_of : OutputFormat → String
type_of jpeg = "image/jpeg"
type_of png = "image/png"
type_of webp = "image/webp"

abbrev pub stores : OutputFormat → String → Bool
stores jpeg mode = text_eq mode "RGB"
stores png mode = true
stores webp mode = text_eq mode "RGB" || text_eq mode "RGBA"

-- The bytes are an image that was saved without metadata, in a mode and with the type of its format.
pub record IsStripped (pillow : Pillow) (output : PreparedImage) : Type 0 where
  pub format : OutputFormat
  pub image : Image
  pub saved : pillow.save format image ≡ done output.0
  pub info : image.info ≡ []
  pub mode : stores format image.mode ≡ true
  pub content_type : output.1 ≡ type_of format

within-bound :
    {A B : Type 0} (handler : PilError → Error) (x : Pil A) (f : A → Result B) (b : B)
    → (within handler x >>= f) ≡ ok b
    → (a : A) × (x ≡ done a) × (f a ≡ ok b)
within-bound handler (done a) f b h = (a, refl, h)
within-bound handler (raised e) f b h = cc

output_ok :
    (c : FormatConfig) (bytes : List ℕ) (output : PreparedImage)
    → check_output c bytes ≡ ok output
    → (output.0 ≡ bytes) × (output.1 ≡ c.output_content_type)
unfolding check_output
output_ok c bytes output h = ground arith

module _ (pillow : Pillow) where
  converted_mode :
      (m : String) (i j : Image)
      → Converts pillow
      → pillow.convert m (clear_info i) ≡ done j
      → (j.info ≡ []) × (text_eq j.mode m ≡ true)
  converted_mode m i j k h =
      (k.info m (clear_info i) j h refl, (eq_iff j.mode m).1 (k.mode m (clear_info i) j h))

  -- the mode and the metadata of what is saved
  in_mode_ok :
      (format : OutputFormat) (i j : Image)
      → Converts pillow
      → in_mode pillow format (clear_info i) ≡ done j
      → (j.info ≡ []) × (stores format j.mode ≡ true)
  unfolding in_mode
  in_mode_ok jpeg i j k h = converted_mode "RGB" i j k h
  in_mode_ok png i j k h = (ground (arith, h), refl)
  in_mode_ok webp i j k h = elim (Bool-cases (stores webp i.mode)) [
    | inl fits ↦ ground (arith, fits, h)
    | inr other ↦
        let (info, mode) = converted_mode "RGBA" i j k (ground (arith, other, h)) in
        (info, ground (arith, mode))
  ]

  -- the last steps of `reencode`
  abbrev write : FormatConfig → Image → Result PreparedImage
  write c converted =
      within not_processed (pillow.save c.output_format converted) >>= check_output c

  abbrev strip : FormatConfig → Image → Result PreparedImage
  strip c processed =
      within not_processed (in_mode pillow c.output_format (clear_info processed)) >>= write c

  abbrev copied : FormatConfig → Image → Result PreparedImage
  copied c transposed = within not_processed (pillow.copy transposed) >>= strip c

  abbrev turned : FormatConfig → Image → Result PreparedImage
  turned c source = within not_processed (pillow.exif_transpose source) >>= copied c

  reencode-IsStripped :
      (c : FormatConfig) (file : List ℕ) (output : PreparedImage)
      → Converts pillow
      → c.output_content_type ≡ type_of c.output_format
      → reencode pillow c file ≡ ok output
      → IsStripped pillow output
  unfolding reencode
  reencode-IsStripped c file output k typed h =
      let (source, _, h₁) =
        within-bound not_processed (pillow.open_image file) (turned c) output h in
      let (transposed, _, h₂) =
        within-bound not_processed (pillow.exif_transpose source) (copied c) output h₁ in
      let (processed, _, h₃) =
        within-bound not_processed (pillow.copy transposed) (strip c) output h₂ in
      let (image, moded, h₄) =
        within-bound not_processed (in_mode pillow c.output_format (clear_info processed)) (write c)
          output h₃ in
      let (bytes, written, h₅) =
        within-bound not_processed (pillow.save c.output_format image) (check_output c) output h₄ in
      let (same, kind) = output_ok c bytes output h₅ in
      let (info, mode) = in_mode_ok c.output_format processed image k moded in
      record {
        format = c.output_format;
        image = image;
        saved = written ∙ ap done (sym same);
        info = info;
        mode = mode;
        content_type = kind ∙ typed;
      }

  format_of_typed :
      (name : String) (formats : List (String × FormatConfig)) (c : FormatConfig)
      → all (λ f. text_eq f.1.output_content_type (type_of f.1.output_format)) formats ≡ true
      → format_of name formats ≡ some c
      → c.output_content_type ≡ type_of c.output_format
  unfolding format_of
  format_of_typed name [] c h e = cc
  format_of_typed name (f ∷ fs) c h e = elim (Bool-cases (text_eq f.0 name)) [
    | inr next ↦ format_of_typed name fs c (ground (arith, h)) (ground (arith, next, e))
    | inl here ↦
        let same : f.1 ≡ c = ground (arith, here, e) in
        subst (λ (x : FormatConfig). x.output_content_type ≡ type_of x.output_format) same
          ((eq_iff f.1.output_content_type (type_of f.1.output_format)).0 (ground (arith, h)))
  ]

  -- If the copies of `Image.convert` have the mode that was asked for and no metadata that the source
  -- had not, then what `prepare_image` returns is an image that was saved without metadata, in a mode
  -- that its format stores, and its content type is that of the format.
  pub prepare_image-IsStripped :
      (file : List ℕ) (content_type : String) (output : PreparedImage)
      → Converts pillow
      → prepare_image pillow file content_type ≡ ok output
      → IsStripped pillow output
  unfolding prepare_image
  prepare_image-IsStripped file content_type output k h = go (inspect pillow file) refl
    where
      go : (r : Result (Option String)) → inspect pillow file ≡ r → IsStripped pillow output
      go (err e) refused = ground (arith, refused, h)
      go (ok name) found =
          let config = format_of (format_name name) image_formats in
          let (c, is_c, _, encoded) =
            converted pillow config file content_type output (ground (arith, found, h)) in
          reencode-IsStripped c file output k
            (format_of_typed (format_name name) image_formats c refl is_c) encoded
