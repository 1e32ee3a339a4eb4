-- ===== src/Schemas.antt =====
-- What the API takes and gives (app/schemas/base.py).
use crane_tracker.Base.{ℕ, String, Bool, Option, List, ◌&&◌}
use crane_tracker.Base.Int.{ℤ, pos, negsuc, leb_ℤ}
use crane_tracker.Models.{CraneStatus}

pub record CraneInput : Type 0 where
  pub lat : ℤ
  pub lng : ℤ
  pub project_name : Option String

-- `Field(ge=…, le=…)`; the bounds are 90 and 180 degrees
unfoldable pub in_range : CraneInput → Bool
in_range input =
    (leb_ℤ (negsuc 899999999) input.lat && leb_ℤ input.lat (pos 900000000))
    && (leb_ℤ (negsuc 1799999999) input.lng && leb_ℤ input.lng (pos 1800000000))

pub record CreateCraneRequest : Type 0 where
  pub input : CraneInput
  pub override_duplicate_warning : Bool

pub record CranePhotoResponse : Type 0 where
  pub id : ℕ
  pub crane_id : ℕ
  pub url : Option String
  pub original_filename : String
  pub content_type : String
  pub added_at : ℕ

pub record CraneSummary : Type 0 where
  pub id : ℕ
  pub lat : ℤ
  pub lng : ℤ
  pub project_name : Option String
  pub status : CraneStatus
  pub city : Option String
  pub neighborhood : Option String
  pub photos : ℕ
  pub contribs : ℕ
  pub added_at : ℕ

pub record CraneDetail : Type 0 where
  pub summary : CraneSummary
  pub photo_items : List CranePhotoResponse

pub record CraneListResponse : Type 0 where
  pub cranes : List CraneSummary
  pub truncated : Bool

pub record AdminPhotoResponse : Type 0 where
  pub photo : CranePhotoResponse
  pub report_count : ℕ

pub record PhotoListResponse : Type 0 where
  pub photos : List AdminPhotoResponse
  pub end : Bool
