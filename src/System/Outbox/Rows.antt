-- ===== src/System/Outbox/Rows.antt =====
-- The rows of the photos and of the outbox: no photo is marked for deletion without a job.
use crane_tracker.Base.{
  ℕ, ◌≡◌, refl, String, Bool, true, false, some, List, [], ◌∷◌, ◌&&◌, ◌||◌, ◌==◌, arith, not, any,
  all, update, delete, find, text_eq, eq_iff,
}
use crane_tracker.Models.{
  Db, CranePhoto, CranePhotoStatus, OutboxJob, JobStatus, JobOperation, photo_status_eq,
  job_status_eq,
}
use crane_tracker.Photo.Upload.{set_status, new_job}

-- A job of the key that is not completed.
abbrev pub has_open_job : List OutboxJob → String → Bool
has_open_job jobs key =
    any (λ j. text_eq j.storage_key key && not (job_status_eq j.status JobStatus.completed)) jobs

abbrev pub is_queued : List OutboxJob → CranePhoto → Bool
is_queued jobs p =
    not (photo_status_eq p.status CranePhotoStatus.pending_delete)
    || has_open_job jobs p.storage_key

-- The ids of the photos are distinct.
abbrev pub unique_photos : List CranePhoto → Bool
unique_photos [] = true
unique_photos (p ∷ ps) = not (any (λ q. q.id == p.id) ps) && unique_photos ps

abbrev pub unique_jobs : List OutboxJob → Bool
unique_jobs [] = true
unique_jobs (j ∷ js) = not (any (λ k. k.id == j.id) js) && unique_jobs js

-- Ids are distinct, and every photo that is marked for deletion has a job that is not completed.
pub record IsQueued (d : Db) : Type 0 where
  pub photo_ids : unique_photos d.photos ≡ true
  pub job_ids : unique_jobs d.jobs ≡ true
  pub queued : all (is_queued d.jobs) d.photos ≡ true

-- Every row with the id of `p` has its storage key.
abbrev pub agrees : List CranePhoto → CranePhoto → Bool
agrees rows p = all (λ q. not (q.id == p.id) || text_eq q.storage_key p.storage_key) rows

absent-agrees :
    (p : CranePhoto) (rows : List CranePhoto)
    → any (λ q. q.id == p.id) rows ≡ false
    → agrees rows p ≡ true
absent-agrees p [] h = refl
absent-agrees p (q ∷ rows) h = ground (arith, absent-agrees p rows)

found-any :
    (test : CranePhoto → Bool) (rows : List CranePhoto) (p : CranePhoto) (id : ℕ)
    → find test rows ≡ some p
    → p.id ≡ id
    → any (λ q. q.id == id) rows ≡ true
found-any test [] p id h e = cc
found-any test (q ∷ rows) p id h e = ground (arith, found-any test rows p id)

-- In a table with distinct ids a row that was found is the only one of its id.
pub find-agrees :
    (test : CranePhoto → Bool) (rows : List CranePhoto) (p : CranePhoto)
    → unique_photos rows ≡ true
    → find test rows ≡ some p
    → agrees rows p ≡ true
find-agrees test [] p u h = refl
find-agrees test (q ∷ rows) p u h = ground (
  arith,
  eq_iff q.storage_key q.storage_key,
  absent-agrees q rows,
  found-any test rows p q.id,
  find-agrees test rows p,
)

all-agrees_cons :
    (q : CranePhoto) (rows ps : List CranePhoto)
    → any (λ p. p.id == q.id) ps ≡ false
    → all (agrees rows) ps ≡ true
    → all (agrees (q ∷ rows)) ps ≡ true
all-agrees_cons q rows [] u h = refl
all-agrees_cons q rows (p ∷ ps) u h = ground (arith, all-agrees_cons q rows ps)

pub unique-agrees :
    (rows : List CranePhoto) → unique_photos rows ≡ true → all (agrees rows) rows ≡ true
unique-agrees [] u = refl
unique-agrees (q ∷ rows) u = ground (
  arith,
  eq_iff q.storage_key q.storage_key,
  absent-agrees q rows,
  all-agrees_cons q rows rows,
  unique-agrees rows,
)

-- Marking a photo changes neither an id nor a key.
agrees-mark :
    (p : CranePhoto) (id : ℕ) (s : CranePhotoStatus) (rows : List CranePhoto)
    → agrees (update (λ q. q.id == id) (set_status s) rows) p ≡ agrees rows p
agrees-mark p id s [] = refl
agrees-mark p id s (q ∷ rows) = ground (arith, agrees-mark p id s rows)

pub all-agrees_mark :
    (id : ℕ) (s : CranePhotoStatus) (rows ps : List CranePhoto)
    → all (agrees (update (λ q. q.id == id) (set_status s) rows)) ps ≡ all (agrees rows) ps
all-agrees_mark id s rows [] = refl
all-agrees_mark id s rows (p ∷ ps) =
    ground (arith, agrees-mark p id s rows, all-agrees_mark id s rows ps)

any-update :
    (id photo_id : ℕ) (s : CranePhotoStatus) (rows : List CranePhoto)
    → any (λ q. q.id == id) (update (λ q. q.id == photo_id) (set_status s) rows)
      ≡ any (λ q. q.id == id) rows
any-update id photo_id s [] = refl
any-update id photo_id s (q ∷ rows) = ground (arith, any-update id photo_id s rows)

pub unique_photos-mark :
    (photo_id : ℕ) (s : CranePhotoStatus) (rows : List CranePhoto)
    → unique_photos (update (λ q. q.id == photo_id) (set_status s) rows) ≡ unique_photos rows
unique_photos-mark photo_id s [] = refl
unique_photos-mark photo_id s (q ∷ rows) =
    ground (arith, any-update q.id photo_id s rows, unique_photos-mark photo_id s rows)

-- Marking the rows of a photo and adding a job of its key keeps every marked photo queued.
pub queued-mark :
    (jobs : List OutboxJob) (p : CranePhoto) (id time : ℕ) (rows : List CranePhoto)
    → agrees rows p ≡ true
    → all (is_queued jobs) rows ≡ true
    → all
        (is_queued (new_job JobOperation.delete p.storage_key id time ∷ jobs))
        (update (λ q. q.id == p.id) (set_status CranePhotoStatus.pending_delete) rows)
      ≡ true
queued-mark jobs p id time [] a h = refl
queued-mark jobs p id time (q ∷ rows) a h = ground (
  arith,
  eq_iff q.storage_key p.storage_key,
  eq_iff p.storage_key q.storage_key,
  queued-mark jobs p id time rows,
)

-- A change of the outbox that keeps every key with an open job keeps the photos queued.
pub queued_mono :
    (jobs jobs' : List OutboxJob) (rows : List CranePhoto)
    → ((key : String) → has_open_job jobs key ≡ true → has_open_job jobs' key ≡ true)
    → all (is_queued jobs) rows ≡ true
    → all (is_queued jobs') rows ≡ true
queued_mono jobs jobs' [] k h = refl
queued_mono jobs jobs' (p ∷ rows) k h =
    ground (arith, k p.storage_key, queued_mono jobs jobs' rows k)

-- A change of some rows that keeps their keys and completes none.
pub open-update :
    (test : OutboxJob → Bool) (f : OutboxJob → OutboxJob) (jobs : List OutboxJob) (key : String)
    → ((j : OutboxJob) → (f j).storage_key ≡ j.storage_key)
    → ((j : OutboxJob) → (job_status_eq (f j).status JobStatus.completed) ≡ false)
    → has_open_job jobs key ≡ true
    → has_open_job (update test f jobs) key ≡ true
open-update test f [] key k c h = h
open-update test f (j ∷ jobs) key k c h = ground (arith, k j, c j, open-update test f jobs key k c)

any_job-update :
    (id : ℕ) (test : OutboxJob → Bool) (f : OutboxJob → OutboxJob) (jobs : List OutboxJob)
    → ((j : OutboxJob) → (f j).id ≡ j.id)
    → any (λ j. j.id == id) (update test f jobs) ≡ any (λ j. j.id == id) jobs
any_job-update id test f [] k = refl
any_job-update id test f (j ∷ jobs) k = ground (arith, k j, any_job-update id test f jobs k)

pub unique_jobs-update :
    (test : OutboxJob → Bool) (f : OutboxJob → OutboxJob) (jobs : List OutboxJob)
    → ((j : OutboxJob) → (f j).id ≡ j.id)
    → unique_jobs (update test f jobs) ≡ unique_jobs jobs
unique_jobs-update test f [] k = refl
unique_jobs-update test f (j ∷ jobs) k =
    ground (arith, k j, any_job-update j.id test f jobs k, unique_jobs-update test f jobs k)

any-delete_photos :
    (id : ℕ) (test : CranePhoto → Bool) (rows : List CranePhoto)
    → any (λ q. q.id == id) rows ≡ false
    → any (λ q. q.id == id) (delete test rows) ≡ false
any-delete_photos id test [] h = refl
any-delete_photos id test (q ∷ rows) h = ground (arith, any-delete_photos id test rows)

pub unique_photos-delete :
    (test : CranePhoto → Bool) (rows : List CranePhoto)
    → unique_photos rows ≡ true
    → unique_photos (delete test rows) ≡ true
unique_photos-delete test [] u = refl
unique_photos-delete test (q ∷ rows) u =
    ground (arith, any-delete_photos q.id test rows, unique_photos-delete test rows)
