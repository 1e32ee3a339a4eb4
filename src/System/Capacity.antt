-- ===== src/System/Capacity.antt =====
-- `MAX_PHOTOS_PER_CRANE` under any schedule of uploads, deletions and worker cycles.
use native.Mathlib.Nat.{le_trans}
use crane_tracker.Base.{
  ℕ, suc, ◌≤◌, ◌<◌, ◌≡◌, refl, sym, subst, List, [], ◌∷◌, ◌==◌, arith, count, update,
  count-delete-le,
}
use crane_tracker.Models.{Db, CranePhoto, CranePhotoStatus}
use crane_tracker.Env.{Env}
use crane_tracker.Database.{insert_photo, delete_crane_row, delete_photos}
use crane_tracker.Database.Frame.{photo_row}
use crane_tracker.Exec.{◌>>=◌, World, query, now, draw}
use crane_tracker.Exec.Keeps.{
  Keeps, Holds, Finds, keeps_rules, Keeps-pure, continue-Holds, execute-Holds, Keeps-bind,
  Keeps-bind_after, Keeps-lift,
}
use crane_tracker.Photo.Upload.{
  occupies, max_photos_per_crane, UploadFile, ensure_crane_photo_capacity, preupload_crane_photo,
  insert_upload, check_upload, pending_photo, set_status, is_pending_upload,
}
use crane_tracker.Photo.Image.{PreparedImage}
use crane_tracker.Photo.Review.{photos-insert_unless_reported}
use crane_tracker.System.Statements.{Survives, SurvivesReport, Respects-but, gone_reported-Keeps}
use crane_tracker.System.Respects.{Respects}
use crane_tracker.System.Defs.{Transaction, Conditions, System, run}
use crane_tracker.System.Induction.{run_keeps}
use crane_tracker.System.Handlers.{perform-Keeps}

-- No crane has more than three photos that are stored or being stored.
abbrev pub WithinCapacity : Db → Type 0
WithinCapacity d = (id : ℕ) → count (occupies id) d.photos ≤ max_photos_per_crane

count-mark_deleted-le :
    (id photo_id : ℕ) (ps : List CranePhoto)
    → count
        (occupies id)
        (update (λ p. p.id == photo_id) (set_status CranePhotoStatus.pending_delete) ps)
      ≤ count (occupies id) ps
count-mark_deleted-le id photo_id [] = omega arith
count-mark_deleted-le id photo_id (p ∷ ps) = ground (arith, count-mark_deleted-le id photo_id ps)

count-finalize :
    (id photo_id : ℕ) (ps : List CranePhoto)
    → count
        (occupies id)
        (update (is_pending_upload photo_id) (set_status CranePhotoStatus.active) ps)
      ≡ count (occupies id) ps
count-finalize id photo_id [] = refl
count-finalize id photo_id (p ∷ ps) = ground (arith, count-finalize id photo_id ps)

-- a write that leaves the photos
frame : (d d' : Db) → d'.photos ≡ d.photos → WithinCapacity d → WithinCapacity d'
frame d d' photos h id =
    subst (λ ps. count (occupies id) ps ≤ max_photos_per_crane) (sym photos) (h id)

Survives-WithinCapacity : Survives WithinCapacity
unfolding delete_crane_row delete_photos
Survives-WithinCapacity = record {
  crane_deleted = λ id d h i. le_trans (count-delete-le _ (occupies i) d.photos) (h i);
  photo_activated = λ id d h i. subst (λ n. n ≤ 3) (sym (count-finalize i id d.photos)) (h i);
  photo_marked = λ id d h i. le_trans (count-mark_deleted-le i id d.photos) (h i);
  photos_deleted = λ test d h i. le_trans (count-delete-le test (occupies i) d.photos) (h i);
  photo_reported = λ r d d' e. frame d d' (photos-insert_unless_reported r d d' e);
  job_inserted = λ j d d' e h. h;
  jobs_claimed = λ jobs lease d h. h;
  job_failed = λ s id time text d h. h;
  job_completed = λ id time d h. h;
  token_inserted = λ t d d' e h. h;
  tokens_deleted = λ test d h. h;
}

-- `ensure_crane_photo_capacity` passes only where a place is free.
capacity_found :
    (id : ℕ) (w : World)
    → Finds
        (λ (_ : Unit {0}) d. count (occupies id) d.photos < max_photos_per_crane)
        (ensure_crane_photo_capacity id w)
unfolding ensure_crane_photo_capacity ◌>>=◌ query
capacity_found id w = ground arith

-- One more photo of a crane with a free place.
pending_photo_fits :
    (env : Env) (id : ℕ) (upload : UploadFile) (image : PreparedImage) (photo_id time : ℕ) (d : Db)
    → count (occupies id) d.photos < max_photos_per_crane
    → WithinCapacity d
    → WithinCapacity
        (record d { photos = pending_photo env id upload image photo_id time ∷ d.photos })
pending_photo_fits env id upload image photo_id time d free h other = ground (arith, h other)

ensure-Keeps : (id : ℕ) → Keeps WithinCapacity (ensure_crane_photo_capacity id)
unfolding ensure_crane_photo_capacity
ensure-Keeps id = search keeps_rules depth 12

-- The row goes in where a place is free.
insert_pending :
    (env : Env) (id : ℕ) (upload : UploadFile) (image : PreparedImage) (w : World)
    → WithinCapacity w.committed
    → WithinCapacity w.working
    → count (occupies id) w.working.photos < max_photos_per_crane
    → Holds WithinCapacity (insert_upload env id upload image w)
unfolding insert_upload ◌>>=◌ draw
insert_pending env id upload image w h k free =
    let photo_id = env.uuid7 w.drawn in
    let row : CranePhoto = pending_photo env id upload image photo_id (now w) in
    continue-Holds _ _
      (execute-Holds (insert_photo row) (record w { drawn = suc w.drawn }) h
        (λ d e.
          subst WithinCapacity (sym (photo_row row w.working d e))
            (pending_photo_fits env id upload image photo_id (now w) w.working free k)))
      (λ _. Keeps-pure _)

upload_begun-Keeps :
    (env : Env) (id : ℕ) (upload : UploadFile)
    → Keeps WithinCapacity (preupload_crane_photo env id upload)
unfolding preupload_crane_photo
upload_begun-Keeps env id upload = Keeps-bind _ _ (Keeps-lift (check_upload env upload)) λ image.
    Keeps-bind_after _ _ (λ _ d. count (occupies id) d.photos < max_photos_per_crane)
      (ensure-Keeps id) (λ w _. capacity_found id w) (λ _ w. insert_pending env id upload image w)

SurvivesReport-WithinCapacity : SurvivesReport WithinCapacity
SurvivesReport-WithinCapacity = record {
  crane_gone = λ id time d h. h;
  gone_report_inserted = λ r d d' e h. h;
}

respects : (env : Env) → Respects env WithinCapacity
respects env =
    Respects-but env Survives-WithinCapacity (λ c d d' new drawn e h. h)
      (gone_reported-Keeps env SurvivesReport-WithinCapacity) (upload_begun-Keeps env)

-- If no crane has more than three photos that are active or pending upload, then none has after any
-- sequence of transactions of the web server and the worker, whichever statements fail, whichever
-- rows are locked, and whatever R2 answers.
pub run-WithinCapacity :
    (env : Env) (schedule : List (Transaction × Conditions)) (s : System)
    → WithinCapacity s.tables
    → WithinCapacity (run env schedule s).tables
run-WithinCapacity env = run_keeps env (perform-Keeps env (respects env))
