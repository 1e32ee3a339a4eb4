-- ===== src/System/Lifecycle/Rows.antt =====
-- What a write does to the status of the photo with an id.
use crane_tracker.Base.{
  ℕ, ◌≡◌, refl, Bool, true, false, Option, none, some, List, [], ◌∷◌, ◌⊎◌, inl, inr, ◌==◌, find,
  any, update, delete, arith, Bool-cases,
}
use crane_tracker.Models.{Db, CranePhoto, CranePhotoStatus, photo_status_eq}
use crane_tracker.Photo.Upload.{set_status, is_pending_upload}
use crane_tracker.System.Outbox.Rows.{unique_photos}

-- The automaton of a photo that was uploaded; `none` is a photo that is not there any more.
pub data PhotoStep : Option CranePhotoStatus → Option CranePhotoStatus → Type 0 where
  finalize : PhotoStep (some CranePhotoStatus.pending_upload) (some CranePhotoStatus.active)
  abandon : PhotoStep (some CranePhotoStatus.pending_upload) (some CranePhotoStatus.pending_delete)
  discard : PhotoStep (some CranePhotoStatus.active) (some CranePhotoStatus.pending_delete)
  remove : (s : CranePhotoStatus) → PhotoStep (some s) none

-- One step or none.
abbrev pub Moves : Option CranePhotoStatus → Option CranePhotoStatus → Type 0
Moves s t = (s ≡ t) ⊎ PhotoStep s t

abbrev status_of : Option CranePhoto → Option CranePhotoStatus
status_of none = none
status_of (some p) = some p.status

abbrev pub status_in : List CranePhoto → ℕ → Option CranePhotoStatus
status_in rows i = status_of (find (λ q. q.id == i) rows)

-- the state of the photo with this id
abbrev pub status_at : Db → ℕ → Option CranePhotoStatus
status_at d i = status_in d.photos i

absent :
    (i : ℕ) (rows : List CranePhoto) → any (λ q. q.id == i) rows ≡ false → status_in rows i ≡ none
absent i [] h = refl
absent i (q ∷ rows) h = ground (arith, absent i rows)

-- An UPDATE moves every photo as it moves its row.
moved :
    (test : CranePhoto → Bool) (f : CranePhoto → CranePhoto) (i : ℕ) (rows : List CranePhoto)
    → ((q : CranePhoto) → (f q).id ≡ q.id)
    → ((q : CranePhoto) → test q ≡ true → Moves (some q.status) (some (f q).status))
    → Moves (status_in rows i) (status_in (update test f rows) i)
moved test f i [] keeps moves = inl refl
moved test f i (q ∷ rows) keeps moves = elim (Bool-cases (test q)) [
  | inr miss ↦ elim (Bool-cases (q.id == i)) [
    | inl same ↦ rw (miss, same) (inl refl)
    | inr other ↦ rw (miss, other) (moved test f i rows keeps moves)
  ]
  | inl hit ↦ elim (Bool-cases (q.id == i)) [
    | inl same ↦ rw (hit, keeps q, same) (moves q hit)
    | inr other ↦ rw (hit, keeps q, other) (moved test f i rows keeps moves)
  ]
]

discarded : (s : CranePhotoStatus) → Moves (some s) (some CranePhotoStatus.pending_delete)
discarded CranePhotoStatus.active = inr discard
discarded CranePhotoStatus.pending_upload = inr abandon
discarded CranePhotoStatus.pending_delete = inl refl

pub Moves-mark :
    (id i : ℕ) (rows : List CranePhoto)
    → Moves
        (status_in rows i)
        (status_in (update (λ q. q.id == id) (set_status CranePhotoStatus.pending_delete) rows) i)
Moves-mark id i rows =
    moved (λ q. q.id == id) (set_status CranePhotoStatus.pending_delete) i rows (λ q. refl)
      (λ q h. discarded q.status)

finalized :
    (s : CranePhotoStatus)
    → photo_status_eq s CranePhotoStatus.pending_upload ≡ true
    → Moves (some s) (some CranePhotoStatus.active)
finalized CranePhotoStatus.active h = inl refl
finalized CranePhotoStatus.pending_upload h = inr finalize
finalized CranePhotoStatus.pending_delete h = cc

pub Moves-activate :
    (id i : ℕ) (rows : List CranePhoto)
    → Moves
        (status_in rows i)
        (status_in (update (is_pending_upload id) (set_status CranePhotoStatus.active) rows) i)
Moves-activate id i rows =
    moved (is_pending_upload id) (set_status CranePhotoStatus.active) i rows (λ q. refl)
      (λ q h. finalized q.status (ground arith))

removed : (s : Option CranePhotoStatus) → Moves s none
removed none = inl refl
removed (some s) = inr (remove s)

any-delete :
    (i : ℕ) (test : CranePhoto → Bool) (rows : List CranePhoto)
    → any (λ q. q.id == i) rows ≡ false
    → any (λ q. q.id == i) (delete test rows) ≡ false
any-delete i test [] h = refl
any-delete i test (q ∷ rows) h = ground (arith, any-delete i test rows)

-- In a table with distinct ids a DELETE removes a photo or leaves it.
pub Moves-delete :
    (test : CranePhoto → Bool) (i : ℕ) (rows : List CranePhoto)
    → unique_photos rows ≡ true
    → Moves (status_in rows i) (status_in (delete test rows) i)
Moves-delete test i [] u = inl refl
Moves-delete test i (q ∷ rows) u = elim (Bool-cases (test q)) [
  | inr miss ↦ elim (Bool-cases (q.id == i)) [
    | inl same ↦ rw (miss, same) (inl refl)
    | inr other ↦ rw (miss, other) (Moves-delete test i rows (ground arith))
  ]
  | inl hit ↦ elim (Bool-cases (q.id == i)) [
    | inl same ↦
        rw (hit, same, absent i (delete test rows) (any-delete i test rows (ground arith)))
          (removed (some q.status))
    | inr other ↦ rw (hit, other) (Moves-delete test i rows (ground arith))
  ]
]
