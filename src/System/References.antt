-- ===== src/System/References.antt =====
-- The foreign keys of the rows, under any sequence of transactions.
pub mod Rows
use crane_tracker.Base.{
  all-delete, ℕ, ◌≡◌, refl, sym, subst, ◌∙◌, Bool, true, false, List, ◌∷◌, ◌&&◌, inl, inr, ◌==◌,
  any, all, update, delete, arith, Bool-cases,
}
use crane_tracker.Models.{
  Db, Crane, CranePhoto, CranePhotoStatus, GoneReport, PhotoReport, AdminToken, OutboxJob,
}
use crane_tracker.Errors.{ok}
use crane_tracker.Env.{Env}
use crane_tracker.Crane
use crane_tracker.Database.{
  has_crane, has_photo, already_reported, insert_photo, insert_gone_report, insert_photo_report,
  delete_crane_row, delete_photos,
}
use crane_tracker.Photo.Upload.{set_status, is_pending_upload}
use crane_tracker.Photo.Review.{insert_unless_reported}
use crane_tracker.System.Statements.{Survives, SurvivesReport, Respects-Survives}
use crane_tracker.System.Defs.{Transaction, Conditions, System, run}
use crane_tracker.System.Induction.{run_keeps}
use crane_tracker.System.Handlers.{perform-Keeps}
use Rows.{
  all-implied, all-delete_implied, all-update_same, any-update_same, any-delete_kept,
  any-delete_unmet,
}

-- Every row that a row names is there.
pub record IsReferenced (d : Db) : Type 0 where
  pub photos : all (λ p. has_crane p.crane_id d) d.photos ≡ true
  pub gone_reports : all (λ g. has_crane g.crane_id d) d.gone_reports ≡ true
  pub photo_reports : all (λ r. has_photo r.photo_id d) d.photo_reports ≡ true

kept_crane :
    (id k : ℕ) (rows : List Crane)
    → (k == id) ≡ false
    → any (λ c. c.id == k) rows ≡ true
    → any (λ c. c.id == k) (delete (λ c. c.id == id) rows) ≡ true
kept_crane id k rows apart =
    any-delete_kept (λ c. c.id == k) (λ c. c.id == id) rows (λ c same. ground (arith, apart, same))

pub crane_inserted :
    (c : Crane) (d : Db) → IsReferenced d → IsReferenced (record d { cranes = c ∷ d.cranes })
crane_inserted c d h = record {
  photos = all-implied _ _ d.photos (λ p found. ground (arith, found)) h.photos;
  gone_reports = all-implied _ _ d.gone_reports (λ g found. ground (arith, found)) h.gone_reports;
  photo_reports = h.photo_reports;
}

crane_gone : (id time : ℕ) (d : Db) → IsReferenced d → IsReferenced (Crane.mark_gone id time d)
crane_gone id time d h =
    let same : (k : ℕ) → has_crane k (Crane.mark_gone id time d) ≡ has_crane k d = λ k.
      any-update_same (λ c. c.id == k) (λ c. c.id == id) (Crane.set_gone time) d.cranes
        (λ c. ground arith) in
    record {
      photos = all-implied _ _ d.photos (λ p found. same p.crane_id ∙ found) h.photos;
      gone_reports =
          all-implied _ _ d.gone_reports (λ g found. same g.crane_id ∙ found) h.gone_reports;
      photo_reports = h.photo_reports;
    }

reports_left :
    (test : CranePhoto → Bool) (photos : List CranePhoto) (reports : List PhotoReport)
    → all (λ r. any (λ q. q.id == r.photo_id) photos) reports ≡ true
    → all
        (λ r. any (λ q. q.id == r.photo_id) (delete test photos))
        (delete (λ r. any (λ q. q.id == r.photo_id && test q) photos) reports)
      ≡ true
reports_left test photos reports =
    all-delete_implied _ _ _ reports
      (λ r found unmet. any-delete_unmet (λ q. q.id == r.photo_id) test photos unmet found)

photos_deleted :
    (test : CranePhoto → Bool) (d : Db) → IsReferenced d → IsReferenced (delete_photos test d)
unfolding delete_photos
photos_deleted test d h = record {
  photos = all-delete test (λ p. has_crane p.crane_id d) d.photos h.photos;
  gone_reports = h.gone_reports;
  photo_reports = reports_left test d.photos d.photo_reports h.photo_reports;
}

crane_deleted : (id : ℕ) (d : Db) → IsReferenced d → IsReferenced (delete_crane_row id d)
unfolding delete_crane_row delete_photos
crane_deleted id d h = record {
  photos =
      all-delete_implied _ _ _ d.photos
        (λ p found apart. kept_crane id p.crane_id d.cranes apart found) h.photos;
  gone_reports =
      all-delete_implied _ _ _ d.gone_reports
        (λ g found apart. kept_crane id g.crane_id d.cranes apart found) h.gone_reports;
  photo_reports = reports_left (λ p. p.crane_id == id) d.photos d.photo_reports h.photo_reports;
}

pub photo_inserted :
    (p : CranePhoto) (d d' : Db)
    → p.status ≡ CranePhotoStatus.pending_upload
    → insert_photo p d ≡ ok d'
    → IsReferenced d
    → IsReferenced (record d { photos = p ∷ d.photos })
unfolding insert_photo
photo_inserted p d d' new e h =
    let own : has_crane p.crane_id d ≡ true = ground arith in
    record {
      photos = ground (arith, own, h.photos);
      gone_reports = h.gone_reports;
      photo_reports =
          all-implied _ _ d.photo_reports (λ r found. ground (arith, found)) h.photo_reports;
    }

gone_report_inserted :
    (g : GoneReport) (d d' : Db)
    → insert_gone_report g d ≡ ok d'
    → IsReferenced d
    → IsReferenced (record d { gone_reports = g ∷ d.gone_reports })
unfolding insert_gone_report
gone_report_inserted g d d' e h =
    let own : has_crane g.crane_id d ≡ true = ground arith in
    record {
      photos = h.photos;
      gone_reports = ground (arith, own, h.gone_reports);
      photo_reports = h.photo_reports;
    }

photo_reported :
    (r : PhotoReport) (d d' : Db)
    → insert_unless_reported r d ≡ ok d'
    → IsReferenced d
    → IsReferenced d'
unfolding insert_photo_report
photo_reported r d d' e h = elim (Bool-cases (already_reported r d)) [
  | inl again ↦ let same : d ≡ d' = ground arith in subst IsReferenced same h
  | inr new ↦
      let own : has_photo r.photo_id d ≡ true = ground arith in
      let row : d' ≡ record d { photo_reports = r ∷ d.photo_reports } = ground arith in
      subst IsReferenced (sym row) (record {
        photos = h.photos;
        gone_reports = h.gone_reports;
        photo_reports = ground (arith, own, h.photo_reports);
      })
]

-- The other tables hold no row of these.
others_changed :
    (d : Db) (jobs : List OutboxJob) (tokens : List AdminToken)
    → IsReferenced d
    → IsReferenced (record d { jobs = jobs; tokens = tokens })
others_changed d jobs tokens h = record {
  photos = h.photos;
  gone_reports = h.gone_reports;
  photo_reports = h.photo_reports;
}

-- an UPDATE of photos that leaves their ids and their cranes alone
photos_updated :
    (test : CranePhoto → Bool) (s : CranePhotoStatus) (d : Db)
    → IsReferenced d
    → IsReferenced (record d { photos = update test (set_status s) d.photos })
photos_updated test s d h = record {
  photos =
      all-update_same (λ p. has_crane p.crane_id d) test (set_status s) d.photos (λ p. refl)
      ∙ h.photos;
  gone_reports = h.gone_reports;
  photo_reports =
      all-implied _ _ d.photo_reports
        (λ r found.
          any-update_same (λ q. q.id == r.photo_id) test (set_status s) d.photos (λ q. refl)
          ∙ found)
        h.photo_reports;
}

pub survives : Survives IsReferenced
survives = record {
  crane_deleted = crane_deleted;
  photo_activated = λ id d. photos_updated (is_pending_upload id) CranePhotoStatus.active d;
  photo_marked = λ id d. photos_updated (λ p. p.id == id) CranePhotoStatus.pending_delete d;
  photos_deleted = photos_deleted;
  photo_reported = photo_reported;
  job_inserted = λ j d d' e. others_changed d (j ∷ d.jobs) d.tokens;
  jobs_claimed = λ jobs lease d. others_changed d _ d.tokens;
  job_failed = λ s id time text d. others_changed d _ d.tokens;
  job_completed = λ id time d. others_changed d _ d.tokens;
  token_inserted = λ t d d' e. others_changed d d.jobs (t ∷ d.tokens);
  tokens_deleted = λ test d. others_changed d d.jobs _;
}

pub survives_report : SurvivesReport IsReferenced
survives_report = record { crane_gone = crane_gone; gone_report_inserted = gone_report_inserted }

-- If each photo and each gone report is of a crane that is there, and each photo report of a photo
-- that is there, then so it is after any sequence of transactions.
pub run-IsReferenced :
    (env : Env) (schedule : List (Transaction × Conditions)) (s : System)
    → IsReferenced s.tables
    → IsReferenced (run env schedule s).tables
run-IsReferenced env schedule s h =
    run_keeps env
      (perform-Keeps env (
        Respects-Survives env survives (λ c d d' new drawn e. crane_inserted c d) survives_report
          (λ p d d' new drawn. photo_inserted p d d' new)))
      schedule s h
