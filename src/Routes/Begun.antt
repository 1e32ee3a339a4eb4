-- ===== src/Routes/Begun.antt =====
-- What the first transaction of an upload leaves, and what its abandonment commits (`upload_crane_photo` of app/routes/crane.py).
use crane_tracker.Base.{ℕ, suc, ◌≡◌, true, false, some, List, [], ◌∷◌, ◌==◌, any, find, arith}
use crane_tracker.Models.{CranePhoto, JobOperation}
use crane_tracker.Errors.{ok, err, Error}
use crane_tracker.Env.{Env}
use crane_tracker.Database.{fits_error, insert_photo, insert_job}
use crane_tracker.Exec.{
  World, lift, pure, raise, query, modify, execute, commit, rollback, draw, gets, rescue, ◌>>=◌,
  ◌>>◌,
}
use crane_tracker.Exec.Outcome.{bound}
use crane_tracker.Photo.Image.{PreparedImage}
use crane_tracker.Photo.Upload
use crane_tracker.Photo.Upload.{UploadFile, set_status, is_pending_upload}
use crane_tracker.Routes.Photos.{begin_upload, abandon_and_raise, abandon_helper}

module _ (env : Env) where
  -- What the first transaction leaves: the row of the photo, pending upload, is committed.
  pub record IsBegun (p : CranePhoto) (w : World) : Type 0 where
    pub pending : find (is_pending_upload p.id) w.working.photos ≡ some p
    pub committed : w.committed ≡ w.working
    pub fits : fits_error (some p.storage_key) ≡ true

  inserted :
      (crane_id : ℕ) (upload : UploadFile) (image : PreparedImage) (r : CranePhoto × List ℕ)
      (w w' : World)
      → Upload.insert_upload env crane_id upload image w ≡ (ok r, w')
      → (find (is_pending_upload r.0.id) w'.working.photos ≡ some r.0)
        × (fits_error (some r.0.storage_key) ≡ true)
  unfolding Upload.insert_upload ◌>>=◌ draw gets execute pure insert_photo fits_error
  inserted crane_id upload image r w w' h = (ground arith, ground arith)

  committed :
      (r s : CranePhoto × List ℕ) (w w' : World)
      → (commit >> pure (r.0, r.1)) w ≡ (ok s, w')
      → (s.0 ≡ r.0) × (w'.working ≡ w.working) × (w'.committed ≡ w'.working)
  unfolding ◌>>=◌ commit pure
  committed r s w w' h = ground arith

  pub abandons :
      (p : CranePhoto) (e : Error) (w : World)
      → w.faults ≡ []
      → find (is_pending_upload p.id) w.committed.photos ≡ some p
      → fits_error (some p.storage_key) ≡ true
      → any (λ j. j.id == env.uuid7 w.drawn) w.committed.jobs ≡ false
      → ((abandon_and_raise env p.id e w).0 ≡ err e)
        × ((abandon_and_raise env p.id e w).1.committed.photos
            ≡ (Upload.mark_deleted p.id w.committed).photos)
        × ((time : ℕ) × ((abandon_and_raise env p.id e w).1.committed.jobs
              ≡ Upload.new_job JobOperation.delete p.storage_key (env.uuid7 w.drawn) time
                ∷ w.committed.jobs))
  unfolding abandon_and_raise abandon_helper Upload.abandon_crane_photo_upload Upload.queue_if_found
      Upload.create_delete_crane_job Upload.create_task ◌>>=◌ draw gets execute pure insert_job
      fits_error rollback raise rescue query modify commit
  abandons p e w calm pending fits fresh =
      (ground arith, ground arith, (w.clock (suc w.transaction), ground arith))

  pub begun :
      (crane_id : ℕ) (upload : UploadFile) (p : CranePhoto) (file : List ℕ) (w w₁ : World)
      → begin_upload env crane_id upload w ≡ (ok (p, file), w₁)
      → IsBegun p w₁
  unfolding begin_upload Upload.preupload_crane_photo ◌>>=◌
  begun crane_id upload p file w w₁ h =
      let (row, v, pre, saved) =
        bound (Upload.preupload_crane_photo env crane_id upload w) (λ r. commit >> pure (r.0, r.1))
          (p, file) w₁ h in
      let (image, x, _, after) =
        bound (lift (Upload.check_upload env upload) w)
          (λ prepared.
            Upload.ensure_crane_photo_capacity crane_id
            >> Upload.insert_upload env crane_id upload prepared)
          row v pre in
      let (_, y, _, insert) =
        bound (Upload.ensure_crane_photo_capacity crane_id x)
          (λ _. Upload.insert_upload env crane_id upload image) row v after in
      let (pending, fits) = inserted crane_id upload image row y v insert in
      let (same, working, both) = committed row (p, file) v w₁ saved in
      record { pending = rw (working, same) pending; committed = both; fits = rw same fits }
