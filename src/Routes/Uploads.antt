-- ===== src/Routes/Uploads.antt =====
-- How an upload ends (`upload_crane_photo` of app/routes/crane.py).
use crane_tracker.Base.{
  ℕ, ◌≡◌, refl, sym, ap, subst, ◌∙◌, String, false, List, [], ◌∷◌, ◌==◌, inl, inr, ◌⊎◌, true, false,
  any, find, ◌++◌, arith,
}
use crane_tracker.Models.{Db, CranePhoto, CranePhotoStatus, JobOperation}
use crane_tracker.Errors.{Result, ok, err, Error, photo_storage, unexpected, http}
use crane_tracker.Schemas.{CranePhotoResponse}
use crane_tracker.Env.{Env}
use crane_tracker.Exec.{
  World, Action, Request, Reply, put, next_reply, pure, raise, query, modify, commit, rollback,
  or_raise, rescue, request, continue, caught, ◌>>=◌, ◌>>◌,
}
use crane_tracker.Storage
use crane_tracker.Photo.Upload
use crane_tracker.Photo.Upload.{UploadFile, set_status, is_pending_upload}
use crane_tracker.Routes.Cranes.{serialize_crane_photo}
use crane_tracker.Routes.Photos.{
  begin_upload, store_and_finalize, upload_failed, upload_crane_photo, RequestFile, upload_of,
}
use crane_tracker.Routes.Begun.{IsBegun, abandons, begun}
use crane_tracker.Storage.Uploads.{Asks, Ends, has_client, upload_photo-Ends}

module _ (env : Env) where
  -- The answer of the handler for an outcome of its second transaction.
  abbrev served : Result CranePhoto → Result CranePhotoResponse
  served (ok photo) = ok (serialize_crane_photo env photo)
  served (err e) = err e

  -- The three ends of an upload that has begun, each with what R2 replied: the photo is active and is
  -- the answer; or it is marked for deletion, with a job for its object, and the answer is 503; or R2
  -- raised what the handler does not catch, and nothing is changed.
  pub data Ended (p : CranePhoto) (file : List ℕ) (w : World) (answer : Result CranePhotoResponse)
      (asked : List Request) (d : Db) : Type 0 where
    stored :
        answer ≡ ok (serialize_crane_photo env (set_status CranePhotoStatus.active p))
        → d.photos ≡ (Upload.activate p.id w.committed).photos
        → asked ≡ w.requests ++ put p.storage_key p.content_type file ∷ []
        → has_client env ≡ true
        → next_reply w.replies ≡ Reply.done
        → Ended p file w answer asked d
    abandoned :
        (text : String) (time : ℕ)
        → answer ≡ err (http 503 text)
        → d.photos ≡ (Upload.mark_deleted p.id w.committed).photos
        → d.jobs
          ≡ Upload.new_job JobOperation.delete p.storage_key (env.uuid7 w.drawn) time
            ∷ w.committed.jobs
        → (has_client env ≡ false) ⊎ (next_reply w.replies ≡ Reply.refused)
        → Ended p file w answer asked d
    broken :
        (text : String)
        → answer ≡ err (unexpected text)
        → d ≡ w.committed
        → has_client env ≡ true
        → next_reply w.replies ≡ Reply.broken text
        → Ended p file w answer asked d

  abbrev EndedBy : CranePhoto → List ℕ → World → Result CranePhoto × World → Type 0
  EndedBy p file w r = Ended p file w (served r.0) r.1.requests r.1.committed

  err-injective : {A : Type 0} {x y : Error} → Path (Result A) (err x) (err y) → x ≡ y
  err-injective h = cc

  caught-ok :
      {A : Type 0} (r : Result A × World) (h : Error → Action A) (a : A)
      → r.0 ≡ ok a
      → caught r h ≡ r
  caught-ok (ok b, w) h a e = refl
  caught-ok (err x, w) h a e = cc

  caught-err :
      {A : Type 0} (r : Result A × World) (h : Error → Action A) (x : Error)
      → r.0 ≡ err x
      → caught r h ≡ h x r.1
  caught-err (ok b, w) h x e = cc
  caught-err (err y, w) h x e = ap (λ z. h z w) (err-injective e)

  -- what follows the request to R2
  finish : CranePhoto → Action CranePhoto
  finish p = do photo ← Upload.finalize_crane_photo p.id; commit; pure photo

  finishes :
      (p : CranePhoto) (w v : World)
      → w.faults ≡ []
      → IsBegun env p w
      → Asks w v
      → ((finish p v).0 ≡ ok (set_status CranePhotoStatus.active p))
        × ((finish p v).1.committed.photos ≡ (Upload.activate p.id w.committed).photos)
        × ((finish p v).1.requests ≡ v.requests)
  unfolding finish Upload.finalize_crane_photo ◌>>=◌ query modify commit pure or_raise
  finishes p w v calm b asked = rw asked (
    ground (arith, calm, b.pending, b.committed),
    ground (arith, calm, b.pending, b.committed),
    ground (arith, calm, b.pending, b.committed),
  )

  after_reply :
      (p : CranePhoto) (file : List ℕ) (w : World) (r : Result (Unit {0}) × World)
      → w.faults ≡ []
      → IsBegun env p w
      → any (λ j. j.id == env.uuid7 w.drawn) w.committed.jobs ≡ false
      → Ends env (put p.storage_key p.content_type file) w r
      → EndedBy p file w (caught (continue r (λ _. finish p)) (upload_failed env p.id))
  unfolding upload_failed raise
  after_reply p file w (ok tt, v) calm b fresh (asked, inl (_, has, said, put_eq)) =
      let (answer, photos, requests) = finishes p w v calm b asked in
      subst (EndedBy p file w) (sym (caught-ok (finish p v) (upload_failed env p.id) _ answer))
        (stored (ap served answer) photos (requests ∙ put_eq) has said)
  after_reply p file w (ok tt, v) calm b fresh (asked, inr (inl (t, h, _))) = cc
  after_reply p file w (ok tt, v) calm b fresh (asked, inr (inr (t, h, _, _))) = cc
  after_reply p file w (err e, v) calm b fresh (asked, inl (h, _, _, _)) = cc
  after_reply p file w (err e, v) calm b fresh (asked, inr (inl (t, h, why))) =
      let asking : World = record w { replies = v.replies; requests = v.requests } in
      let (answer, photos, (time, jobs)) =
        abandons env p (http 503 t) asking calm
          (ap (λ (d : Db). find (is_pending_upload p.id) d.photos) b.committed ∙ b.pending) b.fits
          fresh in
      subst (λ x. EndedBy p file w (upload_failed env p.id x v)) (sym (err-injective h))
        (subst (λ u. EndedBy p file w (upload_failed env p.id (photo_storage t) u)) (sym asked)
          (abandoned t time (ap served answer) photos jobs why))
  after_reply p file w (err e, v) calm b fresh (asked, inr (inr (t, h, has, said))) =
      subst (λ x. EndedBy p file w (upload_failed env p.id x v)) (sym (err-injective h))
        (broken t refl (ap (λ (u : World). u.committed) asked) has said)

  ends :
      (p : CranePhoto) (file : List ℕ) (w : World)
      → w.faults ≡ []
      → IsBegun env p w
      → any (λ j. j.id == env.uuid7 w.drawn) w.committed.jobs ≡ false
      → EndedBy p file w (rescue (store_and_finalize env p file) (upload_failed env p.id) w)
  unfolding rescue store_and_finalize Upload.upload_crane_photo_to_storage ◌>>=◌ finish
  ends p file w calm b fresh =
      after_reply p file w (Storage.upload_photo env file p.storage_key p.content_type w) calm b
        fresh (upload_photo-Ends env file p.storage_key p.content_type w)

  answered :
      (r : Result CranePhoto × World)
      → ((continue r (λ photo. pure (serialize_crane_photo env photo))).0 ≡ served r.0)
        × ((continue r (λ photo. pure (serialize_crane_photo env photo))).1.committed
            ≡ r.1.committed)
        × ((continue r (λ photo. pure (serialize_crane_photo env photo))).1.requests ≡ r.1.requests)
  unfolding pure
  answered (ok photo, w) = (refl, refl, refl)
  answered (err e, w) = (refl, refl, refl)

  answers :
      (crane_id : ℕ) (photo : RequestFile) (p : CranePhoto) (file : List ℕ) (w w₁ : World)
      → begin_upload env crane_id (upload_of photo) w ≡ (ok (p, file), w₁)
      → ((upload_crane_photo env crane_id photo w).0
          ≡ served (rescue (store_and_finalize env p file) (upload_failed env p.id) w₁).0)
        × ((upload_crane_photo env crane_id photo w).1.committed
            ≡ (rescue (store_and_finalize env p file) (upload_failed env p.id) w₁).1.committed)
        × ((upload_crane_photo env crane_id photo w).1.requests
            ≡ (rescue (store_and_finalize env p file) (upload_failed env p.id) w₁).1.requests)
  unfolding upload_crane_photo request ◌>>=◌ rollback
  answers crane_id photo p file w w₁ h =
      rw h (answered (rescue (store_and_finalize env p file) (upload_failed env p.id) w₁))

  -- If the first transaction of an upload committed the row `p` for the prepared file, the database
  -- answers after it, and the id that is drawn for a job is new, then the upload ends in one of three
  -- ways, by what R2 replies. R2 accepted: the photo is active and is the answer, and R2 was asked for
  -- nothing but to store the prepared file under the row's key with the row's content type. Or R2
  -- refused, or has no client that the settings configure: the photo is marked for deletion, a job for
  -- its object is queued, and the answer is 503. Or R2 raised an exception that the handler does not
  -- catch: that is the outcome, and what was committed is unchanged.
  pub upload_crane_photo_ends :
      (crane_id : ℕ) (photo : RequestFile) (p : CranePhoto) (file : List ℕ) (w w₁ : World)
      → begin_upload env crane_id (upload_of photo) w ≡ (ok (p, file), w₁)
      → w₁.faults ≡ []
      → any (λ j. j.id == env.uuid7 w₁.drawn) w₁.committed.jobs ≡ false
      → Ended p file w₁
          (upload_crane_photo env crane_id photo w).0
          (upload_crane_photo env crane_id photo w).1.requests
          (upload_crane_photo env crane_id photo w).1.committed
  upload_crane_photo_ends crane_id photo p file w w₁ h calm fresh =
      let (answer, tables, requests) = answers crane_id photo p file w w₁ h in
      rw (answer, tables, requests)
        (ends p file w₁ calm (begun env crane_id (upload_of photo) p file w w₁ h) fresh)
