-- ===== src/Worker/Reaper.antt =====
-- The reaper of app/worker/photo_jobs.py: the uploads that it gives up.
use crane_tracker.Base.{
  ℕ, ◌≡◌, refl, ◌∙◌, ap, sym, subst, Bool, true, List, [], ◌∷◌, ◌&&◌, ◌==◌, arith, not, any, all,
  select, update, order_by, ascending, length, all-take, all-order_by, all-select,
}
use crane_tracker.Models.{CranePhoto, CranePhotoStatus, photo_status_eq}
use crane_tracker.Errors.{ok}
use crane_tracker.Env.{Env}
use crane_tracker.Database.{insert_job}
use crane_tracker.Exec.{World, now, pure, gets, query, modify, execute, commit, draw, ◌>>=◌}
use crane_tracker.Exec.Outcome.{bound, query-ok}
use crane_tracker.Photo.Upload.{create_delete_crane_job, create_task, set_status}
use crane_tracker.Worker.Jobs.{milliseconds}
use crane_tracker.Worker.Batch.{reap, queue_all, expired_uploads, is_expired_upload}

abbrev is_stored : List CranePhoto → ℕ → Bool
is_stored rows i = any (λ q. q.id == i) rows

-- whether a row with this id is marked for deletion
abbrev pub is_marked : List CranePhoto → ℕ → Bool
is_marked rows i =
    any (λ q. q.id == i && photo_status_eq q.status CranePhotoStatus.pending_delete) rows

abbrev mark : ℕ → List CranePhoto → List CranePhoto
mark i = update (λ q. q.id == i) (set_status CranePhotoStatus.pending_delete)

stored-mark : (i j : ℕ) (rows : List CranePhoto) → is_stored (mark j rows) i ≡ is_stored rows i
stored-mark i j [] = refl
stored-mark i j (q ∷ rows) = ground (arith, stored-mark i j rows)

marked-mark :
    (i j : ℕ) (rows : List CranePhoto) → is_marked rows i ≡ true → is_marked (mark j rows) i ≡ true
marked-mark i j [] h = cc
marked-mark i j (q ∷ rows) h = ground (arith, marked-mark i j rows)

mark_stored :
    (i : ℕ) (rows : List CranePhoto) → is_stored rows i ≡ true → is_marked (mark i rows) i ≡ true
mark_stored i [] h = cc
mark_stored i (q ∷ rows) h = ground (arith, mark_stored i rows)

all_stored-mark :
    (j : ℕ) (photos rows : List CranePhoto)
    → all (λ p. is_stored (mark j rows) p.id) photos ≡ all (λ p. is_stored rows p.id) photos
all_stored-mark j [] rows = refl
all_stored-mark j (p ∷ photos) rows =
    ground (arith, stored-mark p.id j rows, all_stored-mark j photos rows)

job_marks :
    (env : Env) (p : CranePhoto) (w w' : World)
    → create_delete_crane_job env p w ≡ (ok tt, w')
    → w'.working.photos ≡ mark p.id w.working.photos
unfolding create_delete_crane_job create_task insert_job ◌>>=◌ modify execute draw
job_marks env p w w' h = ground arith

still_marked :
    (env : Env) (i : ℕ) (photos : List CranePhoto) (w w' : World)
    → queue_all env photos w ≡ (ok tt, w')
    → is_marked w.working.photos i ≡ true
    → is_marked w'.working.photos i ≡ true
unfolding queue_all ◌>>=◌
still_marked env i [] w w' h m = subst (λ r. is_marked r.1.working.photos i ≡ true) h m
still_marked env i (p ∷ photos) w w' h m =
    let (_, v, first, rest) =
      bound (create_delete_crane_job env p w) (λ _. queue_all env photos) tt w' h in
    still_marked env i photos v w' rest
      (rw (job_marks env p w v first) (marked-mark i p.id w.working.photos m))

head_stored :
    (p : CranePhoto) (photos rows : List CranePhoto)
    → all (λ q. is_stored rows q.id) (p ∷ photos) ≡ true
    → is_stored rows p.id ≡ true
head_stored p photos rows h = ground arith

tail_stored :
    (p : CranePhoto) (photos rows : List CranePhoto)
    → all (λ q. is_stored rows q.id) (p ∷ photos) ≡ true
    → all (λ q. is_stored rows q.id) photos ≡ true
tail_stored p photos rows h = ground arith

both : (a b : Bool) → a ≡ true → b ≡ true → (a && b) ≡ true
both a b h k = ground arith

queue_marks :
    (env : Env) (photos : List CranePhoto) (w w' : World)
    → queue_all env photos w ≡ (ok tt, w')
    → all (λ p. is_stored w.working.photos p.id) photos ≡ true
    → all (λ p. is_marked w'.working.photos p.id) photos ≡ true
unfolding queue_all ◌>>=◌
queue_marks env [] w w' h s = refl
queue_marks env (p ∷ photos) w w' h s =
    let (_, v, first, rest) =
      bound (create_delete_crane_job env p w) (λ _. queue_all env photos) tt w' h in
    let moved : v.working.photos ≡ mark p.id w.working.photos = job_marks env p w v first in
    let others : all (λ q. is_stored v.working.photos q.id) photos ≡ true =
      rw moved
        (all_stored-mark p.id photos w.working.photos ∙ tail_stored p photos w.working.photos s) in
    let this : is_marked v.working.photos p.id ≡ true =
      rw moved (mark_stored p.id w.working.photos (head_stored p photos w.working.photos s)) in
    both (is_marked w'.working.photos p.id) (all (λ q. is_marked w'.working.photos q.id) photos)
      (still_marked env p.id photos v w' rest this) (queue_marks env photos v w' rest others)

stored_more :
    (q : CranePhoto) (photos rows : List CranePhoto)
    → all (λ p. is_stored rows p.id) photos ≡ true
    → all (λ p. is_stored (q ∷ rows) p.id) photos ≡ true
stored_more q [] rows h = refl
stored_more q (p ∷ photos) rows h = ground (arith, stored_more q photos rows)

stored_self : (rows : List CranePhoto) → all (λ p. is_stored rows p.id) rows ≡ true
stored_self [] = refl
stored_self (q ∷ rows) = ground (arith, stored_more q rows rows (stored_self rows))

-- the uploads that a run gives up
abbrev pub overdue : Env → World → List CranePhoto
overdue env w =
    expired_uploads env.settings.job_batch_size (milliseconds env.settings.photo_reaper_delay)
      (now w) w.locked w.working

overdue_stored :
    (env : Env) (w : World) → all (λ p. is_stored w.working.photos p.id) (overdue env w) ≡ true
unfolding expired_uploads
overdue_stored env w =
    let stored : CranePhoto → Bool = λ p. is_stored w.working.photos p.id in
    let window : ℕ = milliseconds env.settings.photo_reaper_delay in
    let asked : CranePhoto → Bool =
      λ p. is_expired_upload window (now w) p && not (w.locked p.id) in
    let before : CranePhoto → CranePhoto → Bool = ascending (λ p. p.added_at) in
    all-take stored env.settings.job_batch_size (order_by before (select asked w.working.photos)) (
      all-order_by before stored (select asked w.working.photos)
      ∙ all-select asked stored w.working.photos (stored_self w.working.photos))

ended_ok :
    (n m : ℕ) (w w' : World)
    → (commit >>= λ _. pure n) w ≡ (ok m, w')
    → (m ≡ n) × (w'.committed ≡ w.working)
unfolding commit pure ◌>>=◌
ended_ok n m w w' h = ground arith

-- If the reaper returns from its transaction, then it returns the number of the uploads that were
-- overdue and unlocked, up to the size of a batch and the oldest first, and each of them is committed
-- as marked for deletion.
pub reap_ok :
    (env : Env) (w w' : World) (n : ℕ)
    → reap env w ≡ (ok n, w')
    → (n ≡ length (overdue env w))
      × (all (λ p. is_marked w'.committed.photos p.id) (overdue env w) ≡ true)
unfolding reap gets ◌>>=◌
reap_ok env w w' n h =
    let (photos, v, selected, h₁) =
      bound
        (query
          (expired_uploads env.settings.job_batch_size
            (milliseconds env.settings.photo_reaper_delay) (now w) w.locked)
          w)
        _ n w' h in
    let (_, u, queued, h₂) = bound (queue_all env photos v) _ n w' h₁ in
    let (chosen, same, _) =
      query-ok
        (expired_uploads env.settings.job_batch_size (milliseconds env.settings.photo_reaper_delay)
          (now w) w.locked)
        photos w v selected in
    let (number, done) = ended_ok (length photos) n u w' h₂ in
    let stored : all (λ p. is_stored v.working.photos p.id) (overdue env w) ≡ true =
      subst (λ d. all (λ p. is_stored d.photos p.id) (overdue env w) ≡ true) (sym same)
        (overdue_stored env w) in
    (
      number ∙ ap length chosen,
      subst (λ d. all (λ p. is_marked d.photos p.id) (overdue env w) ≡ true) (sym done)
          (queue_marks env (overdue env w) v u
            (subst (λ ps. queue_all env ps v ≡ (ok tt, u)) chosen queued) stored),
    )
