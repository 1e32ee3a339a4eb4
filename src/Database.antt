-- ===== src/Database.antt =====
-- The constraints that the tables of app/models/base.py put on an INSERT, and the cascades of a
-- DELETE: primary keys, UniqueConstraint, ForeignKey, CheckConstraint and the lengths of String.
pub mod Frame
pub mod Sessions
use Prim.Native.String as Text
use crane_tracker.Base.{
  ℕ, String, Bool, true, Option, none, some, ◌∷◌, ◌&&◌, ◌||◌, any, delete, text_eq, ◌==◌, leb, not,
  if◌then◌else◌, ◌-◌,
}
use crane_tracker.Base.Int.{ℤ, pos, negsuc, leb_ℤ}
use crane_tracker.Models.{
  Crane, CranePhoto, GoneReport, OutboxJob, AdminUser, AdminToken, PhotoReport, Db,
}
use crane_tracker.Errors.{Result, ok, err, integrity, data_error, sql_alchemy}

-- `String(n)`, where NULL fits
fits : ℕ → Option String → Bool
fits n none = true
fits n (some s) = leb (Text.count s) n

-- A row goes in if its texts fit and its constraints hold.
abbrev store : Bool → Bool → Db → Result Db
store texts_fit constraints_hold d =
    if texts_fit
    then (if constraints_hold then ok d else err (sql_alchemy integrity))
    else err (sql_alchemy data_error)

abbrev degrees : ℕ → ℤ → Bool
degrees n x = leb_ℤ (negsuc (n - 1)) x && leb_ℤ x (pos n)

unfoldable pub insert_crane : Crane → Db → Result Db
unfolding fits
insert_crane c d =
    store (fits 255 c.project_name)
      (degrees 900000000 c.lat
        && degrees 1800000000 c.lng
        && not (any (λ r. r.id == c.id) d.cranes))
      (record d { cranes = c ∷ d.cranes })

abbrev pub has_crane : ℕ → Db → Bool
has_crane id d = any (λ c. c.id == id) d.cranes

abbrev pub has_photo : ℕ → Db → Bool
has_photo id d = any (λ p. p.id == id) d.photos

unfoldable pub insert_photo : CranePhoto → Db → Result Db
unfolding fits
insert_photo p d =
    store
      (fits 1024 (some p.storage_key)
        && fits 255 (some p.original_filename)
        && fits 100 (some p.content_type))
      (has_crane p.crane_id d
        && not (has_photo p.id d)
        && not (any (λ r. text_eq r.storage_key p.storage_key) d.photos))
      (record d { photos = p ∷ d.photos })

-- `crane_reporter`
abbrev pub already_gone : GoneReport → Db → Bool
already_gone g d =
    any (λ r. r.crane_id == g.crane_id && text_eq r.reporter_ip_hash g.reporter_ip_hash)
      d.gone_reports

unfoldable pub insert_gone_report : GoneReport → Db → Result Db
insert_gone_report g d =
    store true
      (has_crane g.crane_id d
        && not (any (λ r. r.id == g.id) d.gone_reports)
        && not (already_gone g d))
      (record d { gone_reports = g ∷ d.gone_reports })

-- `photo_reporter`
abbrev pub already_reported : PhotoReport → Db → Bool
already_reported g d =
    any (λ r. r.photo_id == g.photo_id && text_eq r.reporter_ip_hash g.reporter_ip_hash)
      d.photo_reports

unfoldable pub insert_photo_report : PhotoReport → Db → Result Db
unfolding fits
insert_photo_report g d =
    store (fits 64 (some g.reporter_ip_hash))
      (has_photo g.photo_id d
        && not (any (λ r. r.id == g.id) d.photo_reports)
        && not (already_reported g d))
      (record d { photo_reports = g ∷ d.photo_reports })

unfoldable pub insert_job : OutboxJob → Db → Result Db
unfolding fits
insert_job j d =
    store (fits 1024 (some j.storage_key) && fits 1024 j.last_error)
      (not (any (λ r. r.id == j.id) d.jobs)) (record d { jobs = j ∷ d.jobs })

unfoldable pub insert_admin : AdminUser → Db → Result Db
unfolding fits
insert_admin u d =
    store (fits 255 (some u.username) && fits 255 (some u.password_hash))
      (not (any (λ r. r.id == u.id || text_eq r.username u.username) d.admins))
      (record d { admins = u ∷ d.admins })

unfoldable pub insert_token : AdminToken → Db → Result Db
unfolding fits
insert_token t d =
    store (fits 64 (some t.token_hash))
      (any (λ u. u.id == t.user_id) d.admins
        && not (any (λ r. text_eq r.token_hash t.token_hash) d.tokens))
      (record d { tokens = t ∷ d.tokens })

-- The text of `last_error` has to fit when a changed job is flushed.
unfoldable pub fits_error : Option String → Bool
unfolding fits
fits_error = fits 1024

-- `DELETE FROM crane_photo WHERE p`, which takes the reports of those photos along
unfoldable pub delete_photos : (CranePhoto → Bool) → Db → Db
delete_photos p d = record d {
  photos = delete p d.photos;
  photo_reports = delete (λ r. any (λ q. q.id == r.photo_id && p q) d.photos) d.photo_reports;
}

-- `session.delete(crane)`, which takes its photos, their reports and its gone reports along
unfoldable pub delete_crane_row : ℕ → Db → Db
unfolding delete_photos
delete_crane_row id d =
    let rest = delete_photos (λ p. p.crane_id == id) d in
    record rest {
      cranes = delete (λ c. c.id == id) d.cranes;
      gone_reports = delete (λ r. r.crane_id == id) d.gone_reports;
    }
