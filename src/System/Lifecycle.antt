-- ===== src/System/Lifecycle.antt =====
-- The states of a photo (`CranePhotoStatus` of app/models/base.py) as an automaton, and the database
-- as an implementation of it.
pub mod Rows
use crane_tracker.Base.{
  ℕ, ◌≡◌, refl, sym, subst, ◌∙◌, Bool, true, false, Option, List, ◌∷◌, inl, inr, ◌==◌, any, delete,
  Bool-cases, arith,
}
use crane_tracker.Models.{Db, CranePhoto, CranePhotoStatus}
use crane_tracker.Errors.{ok}
use crane_tracker.Env.{Env}
use crane_tracker.Database.{insert_photo, delete_photos, delete_crane_row}
use crane_tracker.Photo.Upload.{activate, mark_deleted}
use crane_tracker.Photo.Review.{photos-insert_unless_reported}
use crane_tracker.System.Outbox.Rows.{unique_photos, unique_photos-mark, unique_photos-delete}
use crane_tracker.System.Outbox.Complete.{unique_photos-activate}
use crane_tracker.System.Statements.{Survives, SurvivesReport, PhotoInserted, Respects-Survives}
use crane_tracker.System.Defs.{Transaction, Conditions, System, run}
use crane_tracker.System.Induction.{run_keeps}
use crane_tracker.System.Handlers.{perform-Keeps}
use crane_tracker.System.Lifecycle.Rows.{
  PhotoStep, Moves, status_at, status_in, Moves-activate, Moves-mark, Moves-delete,
}
pub use crane_tracker.System.Lifecycle.Rows.{PhotoStep, status_at}

-- Any number of steps.
pub data Reaches : Option CranePhotoStatus → Option CranePhotoStatus → Type 0 where
  stay : {s t : Option CranePhotoStatus} → s ≡ t → Reaches s t
  then : {s t u : Option CranePhotoStatus} → Reaches s t → PhotoStep t u → Reaches s u

then-Moves : {s t u : Option CranePhotoStatus} → Reaches s t → Moves t u → Reaches s u
then-Moves r (inl same) = subst (Reaches _) same r
then-Moves r (inr next) = then r next

-- From the tables `d₀`, the photo with this id has come here by steps of the automaton.
record Follows (id : ℕ) (d₀ d : Db) : Type 0 where
  unique : unique_photos d.photos ≡ true
  reaches : Reaches (status_at d₀ id) (status_at d id)

module _ (id : ℕ) (d₀ : Db) where
  -- a write of the photos alone
  Moves-Follows :
      (d : Db) (rows : List CranePhoto)
      → unique_photos rows ≡ true
      → Moves (status_at d id) (status_in rows id)
      → Follows id d₀ d
      → Follows id d₀ (record d { photos = rows })
  Moves-Follows d rows u m h = record { unique = u; reaches = then-Moves h.reaches m }

  same-Follows : (d d' : Db) → d'.photos ≡ d.photos → Follows id d₀ d → Follows id d₀ d'
  same-Follows d d' e h = record {
    unique = rw e h.unique;
    reaches = subst (λ ps. Reaches (status_at d₀ id) (status_in ps id)) (sym e) h.reaches;
  }

insert_photo-fresh :
    (p : CranePhoto) (d d' : Db)
    → insert_photo p d ≡ ok d'
    → any (λ q. q.id == p.id) d.photos ≡ false
unfolding insert_photo
insert_photo-fresh p d d' e = ground arith

module _ (id : ℕ) (d₀ : Db) where
  -- A photo with a drawn id is another one.
  inserted-Follows :
      (env : Env) → ((k : ℕ) → (env.uuid7 k == id) ≡ false) → PhotoInserted env (Follows id d₀)
  inserted-Follows env undrawn p d d' new (k, drawn) e h =
      let fresh = insert_photo-fresh p d d' e in
      let other : (p.id == id) ≡ false = rw drawn (undrawn k) in
      record { unique = ground (arith, h.unique); reaches = rw other h.reaches }

  activated-Follows : (i : ℕ) (d : Db) → Follows id d₀ d → Follows id d₀ (activate i d)
  activated-Follows i d h =
      Moves-Follows id d₀ d _ (unique_photos-activate i d.photos ∙ h.unique)
        (Moves-activate i id d.photos) h

  marked-Follows : (i : ℕ) (d : Db) → Follows id d₀ d → Follows id d₀ (mark_deleted i d)
  marked-Follows i d h =
      Moves-Follows id d₀ d _
        (unique_photos-mark i CranePhotoStatus.pending_delete d.photos ∙ h.unique)
        (Moves-mark i id d.photos) h

  deleted-Follows :
      (test : CranePhoto → Bool) (d d' : Db)
      → d'.photos ≡ delete test d.photos
      → Follows id d₀ d
      → Follows id d₀ d'
  deleted-Follows test d d' e h =
      same-Follows id d₀ (record d { photos = delete test d.photos }) d' e
        (Moves-Follows id d₀ d _ (unique_photos-delete test d.photos h.unique)
          (Moves-delete test id d.photos h.unique) h)

  crane_deleted-Follows : (i : ℕ) (d : Db) → Follows id d₀ d → Follows id d₀ (delete_crane_row i d)
  unfolding delete_crane_row delete_photos
  crane_deleted-Follows i d = deleted-Follows (λ p. p.crane_id == i) d _ refl

  photos_deleted-Follows :
      (test : CranePhoto → Bool) (d : Db) → Follows id d₀ d → Follows id d₀ (delete_photos test d)
  unfolding delete_photos
  photos_deleted-Follows test d = deleted-Follows test d _ refl

  Survives-Follows : Survives (Follows id d₀)
  Survives-Follows = record {
    crane_deleted = crane_deleted-Follows;
    photo_activated = activated-Follows;
    photo_marked = marked-Follows;
    photos_deleted = photos_deleted-Follows;
    photo_reported = λ r d d' e. same-Follows id d₀ d d' (photos-insert_unless_reported r d d' e);
    job_inserted = λ j d d' e. same-Follows id d₀ d _ refl;
    jobs_claimed = λ jobs lease d. same-Follows id d₀ d _ refl;
    job_failed = λ s i time text d. same-Follows id d₀ d _ refl;
    job_completed = λ i time d. same-Follows id d₀ d _ refl;
    token_inserted = λ t d d' e. same-Follows id d₀ d _ refl;
    tokens_deleted = λ test d. same-Follows id d₀ d _ refl;
  }

  SurvivesReport-Follows : SurvivesReport (Follows id d₀)
  SurvivesReport-Follows = record {
    crane_gone = λ i time d. same-Follows id d₀ d _ refl;
    gone_report_inserted = λ r d d' e. same-Follows id d₀ d _ refl;
  }

module _ (env : Env) (id : ℕ) (undrawn : (k : ℕ) → (env.uuid7 k == id) ≡ false) where
  run-Follows :
      (schedule : List (Transaction × Conditions)) (s : System)
      → unique_photos s.tables.photos ≡ true
      → Follows id s.tables (run env schedule s).tables
  run-Follows schedule s unique =
      run_keeps env
        (perform-Keeps env (
          Respects-Survives env (Survives-Follows id s.tables)
            (λ c d d' new drawn e. same-Follows id s.tables d _ refl)
            (SurvivesReport-Follows id s.tables) (inserted-Follows id s.tables env undrawn)))
        schedule s (record { unique = unique; reaches = stay refl })

  -- If the ids of the photos are distinct and this id is no UUID that is drawn, then over any sequence
  -- of transactions, and over any that follows it, the photo with the id moves by steps of the
  -- automaton: it becomes active only from pending upload, is marked for deletion from either, and
  -- may be removed from any state; it is never active again once it is marked, and never there again
  -- once it is removed.
  pub run-Reaches :
      (before after : List (Transaction × Conditions)) (s : System)
      → unique_photos s.tables.photos ≡ true
      → let middle = run env before s in
        Reaches (status_at s.tables id) (status_at middle.tables id)
        × Reaches (status_at middle.tables id) (status_at (run env after middle).tables id)
  run-Reaches before after s unique =
      let first = run-Follows before s unique in
      (first.reaches, (run-Follows after (run env before s) first.unique).reaches)
