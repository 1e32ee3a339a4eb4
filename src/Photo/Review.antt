-- ===== src/Photo/Review.antt =====
-- The review of photos in app/services/photo.py: the page of the newest, and the reports.
use crane_tracker.Base.{
  ℕ, suc, ◌≡◌, arith, String, Bool, true, Option, none, some, List, [], ◌∷◌, ◌&&◌, ◌||◌, ◌==◌, ltb,
  not, if◌then◌else◌, select, find, any, count, take, order_by, descending,
}
use crane_tracker.Models.{CranePhoto, CranePhotoStatus, PhotoReport, Db, photo_status_eq}
use crane_tracker.Errors.{Result, ok, resource_not_found}
use crane_tracker.Env.{Env}
use crane_tracker.Database.{insert_photo_report, already_reported}
use crane_tracker.Exec.{Action, pure, gets, query, or_raise, execute, draw, now, ◌>>=◌, ◌>>◌}
use crane_tracker.Crane.{hash_ip}
use crane_tracker.Photo.Upload.{is_active_photo}

abbrev pub is_reported : Db → CranePhoto → Bool
is_reported d p = any (λ r. r.photo_id == p.id) d.photo_reports

-- `if photo_id: query = query.where(CranePhoto.id < photo_id)`
abbrev pub is_past : Option ℕ → CranePhoto → Bool
is_past none p = true
is_past (some photo_id) p = ltb p.id photo_id

-- the WHERE of the query
abbrev pub is_listed : Db → Bool → CranePhoto → Bool
is_listed d reported_only p =
    photo_status_eq p.status CranePhotoStatus.active && (not reported_only || is_reported d p)

-- every listed photo past the cursor, the newest first
unfoldable pub listing : Bool → Option ℕ → Db → List CranePhoto
listing reported_only cursor d =
    order_by (descending (λ p. p.id))
      (select (λ p. is_listed d reported_only p && is_past cursor p) d.photos)

unfoldable pub get_crane_photos : Option ℕ → ℕ → Bool → Action (List CranePhoto)
unfolding listing
get_crane_photos photo_id limit reported_only =
    query (λ d. take (suc limit) (listing reported_only photo_id d))

-- `INSERT … ON CONFLICT DO NOTHING RETURNING id`: the outcome, and whether a row came back
abbrev pub insert_unless_reported : PhotoReport → Db → Result Db
insert_unless_reported r d = if already_reported r d then ok d else insert_photo_report r d

pub photos-insert_unless_reported :
    (r : PhotoReport) (d d' : Db) → insert_unless_reported r d ≡ ok d' → d'.photos ≡ d.photos
unfolding insert_photo_report
photos-insert_unless_reported r d d' e = ground arith

unfoldable pub report_crane_photo : Env → ℕ → ℕ → String → Action Bool
unfolding hash_ip
report_crane_photo env crane_id photo_id client_ip = do
  found ← query (λ d. find (is_active_photo crane_id photo_id) d.photos)
  or_raise found (resource_not_found "photo" photo_id)
  id ← draw env.uuid7
  time ← gets now
  let row : PhotoReport = record {
    id = id;
    photo_id = photo_id;
    reporter_ip_hash = hash_ip env client_ip;
    added_at = time;
  }
  conflict ← gets (λ w. already_reported row w.working)
  execute (insert_unless_reported row)
  pure (not conflict)

-- `GROUP BY photo_id` over the reports of the given photos: one entry for each photo with reports
unfoldable pub get_photo_report_counts : List ℕ → Action (ℕ → Option ℕ)
get_photo_report_counts [] = pure (λ _. none)
get_photo_report_counts (first ∷ ids) = query λ d photo_id.
    let n = count (λ r. r.photo_id == photo_id) d.photo_reports in
    if any (λ i. i == photo_id) (first ∷ ids) && ltb 0 n then some n else none

pub insert_unless_reported-row :
    (r : PhotoReport) (d d' : Db)
    → insert_unless_reported r d ≡ ok d'
    → d' ≡ record d { photo_reports = d'.photo_reports }
unfolding insert_photo_report
insert_unless_reported-row r d d' e = ground arith
