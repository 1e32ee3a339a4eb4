-- ===== src/System/Outbox/Complete.antt =====
-- The rows when a photo is activated, or a job completed with its photos removed.
use crane_tracker.Base.{
  ℕ, ◌≡◌, refl, String, Bool, true, false, some, List, [], ◌∷◌, ◌||◌, ◌==◌, arith, not, any, all,
  update, delete, find, text_eq, eq_iff,
}
use crane_tracker.Models.{CranePhoto, CranePhotoStatus, OutboxJob}
use crane_tracker.Photo.Upload.{set_status, is_pending_upload}
use crane_tracker.Worker.Jobs.{has_id, completed_row}
use crane_tracker.System.Outbox.Rows.{has_open_job, is_queued, unique_photos, unique_jobs}

any-activate :
    (id photo_id : ℕ) (rows : List CranePhoto)
    → any
        (λ q. q.id == id)
        (update (is_pending_upload photo_id) (set_status CranePhotoStatus.active) rows)
      ≡ any (λ q. q.id == id) rows
any-activate id photo_id [] = refl
any-activate id photo_id (q ∷ rows) = ground (arith, any-activate id photo_id rows)

pub unique_photos-activate :
    (photo_id : ℕ) (rows : List CranePhoto)
    → unique_photos (update (is_pending_upload photo_id) (set_status CranePhotoStatus.active) rows)
      ≡ unique_photos rows
unique_photos-activate photo_id [] = refl
unique_photos-activate photo_id (q ∷ rows) =
    ground (arith, any-activate q.id photo_id rows, unique_photos-activate photo_id rows)

pub queued-activate :
    (jobs : List OutboxJob) (photo_id : ℕ) (rows : List CranePhoto)
    → all (is_queued jobs) rows ≡ true
    → all
        (is_queued jobs)
        (update (is_pending_upload photo_id) (set_status CranePhotoStatus.active) rows)
      ≡ true
queued-activate jobs photo_id [] h = refl
queued-activate jobs photo_id (q ∷ rows) h = ground (arith, queued-activate jobs photo_id rows)

-- Every job with this id has this key.
abbrev pub keyed : ℕ → String → List OutboxJob → Bool
keyed id key jobs = all (λ j. not (has_id id j) || text_eq j.storage_key key) jobs

absent-keyed :
    (id : ℕ) (key : String) (jobs : List OutboxJob)
    → any (has_id id) jobs ≡ false
    → keyed id key jobs ≡ true
absent-keyed id key [] h = refl
absent-keyed id key (j ∷ jobs) h = ground (arith, absent-keyed id key jobs)

found-any :
    (id : ℕ) (jobs : List OutboxJob) (job : OutboxJob) (other : ℕ)
    → find (has_id id) jobs ≡ some job
    → id ≡ other
    → any (has_id other) jobs ≡ true
found-any id [] job other h e = cc
found-any id (j ∷ jobs) job other h e = ground (arith, found-any id jobs job other)

pub find-keyed :
    (id : ℕ) (jobs : List OutboxJob) (job : OutboxJob)
    → unique_jobs jobs ≡ true
    → find (has_id id) jobs ≡ some job
    → keyed id job.storage_key jobs ≡ true
find-keyed id [] job u h = refl
find-keyed id (j ∷ jobs) job u h = ground (
  arith,
  eq_iff j.storage_key j.storage_key,
  absent-keyed id j.storage_key jobs,
  found-any id jobs job j.id,
  find-keyed id jobs job,
)

open_complete :
    (id time : ℕ) (key other : String) (jobs : List OutboxJob)
    → keyed id key jobs ≡ true
    → text_eq other key ≡ false
    → has_open_job jobs other ≡ true
    → has_open_job (update (has_id id) (completed_row time) jobs) other ≡ true
open_complete id time key other [] k ne h = h
open_complete id time key other (j ∷ jobs) k ne h = ground (
  arith,
  eq_iff j.storage_key key,
  eq_iff j.storage_key other,
  eq_iff other key,
  open_complete id time key other jobs,
)

-- Completing a job and removing the photos of its key leaves the other marked photos queued.
pub queued_complete :
    (id time : ℕ) (key : String) (jobs : List OutboxJob) (rows : List CranePhoto)
    → keyed id key jobs ≡ true
    → all (is_queued jobs) rows ≡ true
    → all
        (is_queued (update (has_id id) (completed_row time) jobs))
        (delete (λ p. text_eq p.storage_key key) rows)
      ≡ true
queued_complete id time key jobs [] k h = refl
queued_complete id time key jobs (p ∷ rows) k h =
    ground (
      arith,
      open_complete id time key p.storage_key jobs k,
      queued_complete id time key jobs rows k,
    )
