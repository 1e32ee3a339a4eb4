-- ===== src/System/History/Cranes.antt =====
-- What becomes of a crane under any sequence of transactions.
use crane_tracker.Base.{
  ℕ, ◌≡◌, refl, sym, ap, ◌∙◌, subst, true, false, Option, none, some, List, [], ◌∷◌, ◌⊎◌, inl, inr,
  ◌==◌, arith, find, update, delete, Bool-cases,
}
use crane_tracker.Models.{Db, Crane, CraneStatus}
use crane_tracker.Env.{Env}
use crane_tracker.Database.{delete_crane_row, delete_photos}
use crane_tracker.Photo.Review.{insert_unless_reported-row}
use crane_tracker.System.Statements.{Survives, SurvivesReport, CraneInserted, Respects-Survives}
use crane_tracker.System.Defs.{Transaction, Conditions, System, run}
use crane_tracker.System.Induction.{run_keeps}
use crane_tracker.System.Handlers.{perform-Keeps}
use crane_tracker.Crane

-- What a crane keeps: all but its status, which may become gone, and the time of its last change.
pub record SameCrane (c c' : Crane) : Type 0 where
  pub row : c' ≡ record c { status = c'.status; updated_at = c'.updated_at }
  pub status : (c'.status ≡ c.status) ⊎ (c'.status ≡ CraneStatus.gone)

same_crane : (c : Crane) → SameCrane c c
same_crane c = record { row = refl; status = inl refl }

set_gone-row :
    (time : ℕ) (k : Crane)
    → (Crane.set_gone time k
        ≡ record k { status = CraneStatus.gone; updated_at = (Crane.set_gone time k).updated_at })
set_gone-row time k = ground arith

set_gone-SameCrane : (time : ℕ) (c k : Crane) → SameCrane c k → SameCrane c (Crane.set_gone time k)
set_gone-SameCrane time c k h =
    let time' = (Crane.set_gone time k).updated_at in
    let is_gone : (Crane.set_gone time k).status ≡ CraneStatus.gone =
      ap (λ (r : Crane). r.status) (set_gone-row time k) in
    record {
      row =
          set_gone-row time k
          ∙ ap (λ (r : Crane). record r { status = CraneStatus.gone; updated_at = time' }) h.row
          ∙ ap (λ s. record c { status = s; updated_at = time' }) (sym is_gone);
      status = inr is_gone;
    }

-- the crane with this id
abbrev pub crane_at : ℕ → List Crane → Option Crane
crane_at id rows = find (λ c. c.id == id) rows

-- The crane is removed, or it is there and has kept what a crane keeps.
abbrev pub Still : Crane → Option Crane → Type 0
Still c found = (found ≡ none) ⊎ ((c' : Crane) × (found ≡ some c') × SameCrane c c')

-- The same of what was found before: what is not there does not come.
abbrev pub StillFound : Option Crane → Option Crane → Type 0
StillFound none found = found ≡ none
StillFound (some c) found = Still c found

set_gone-id : (time : ℕ) (c : Crane) → (Crane.set_gone time c).id ≡ c.id
set_gone-id time c = ap (λ (r : Crane). r.id) (set_gone-row time c)

-- A crane is set to gone, or left.
marked :
    (id j time : ℕ) (rows : List Crane)
    → (crane_at id (update (λ c. c.id == j) (Crane.set_gone time) rows) ≡ crane_at id rows)
      ⊎ ((c : Crane) × (crane_at id rows ≡ some c)
          × (crane_at id (update (λ c. c.id == j) (Crane.set_gone time) rows)
              ≡ some (Crane.set_gone time c)))
marked id j time [] = inl refl
marked id j time (c ∷ rows) = elim (Bool-cases (c.id == id)) [
  | inl same ↦ elim (Bool-cases (c.id == j)) [
    | inl hit ↦ inr (c, rw same refl, rw (hit, set_gone-id time c, same) refl)
    | inr miss ↦ inl (rw (miss, same) refl)
  ]
  | inr other ↦ elim (Bool-cases (c.id == j)) [
    | inl hit ↦ rw (hit, set_gone-id time c, other) (marked id j time rows)
    | inr miss ↦ rw (miss, other) (marked id j time rows)
  ]
]

removed :
    (id j : ℕ) (rows : List Crane)
    → (id == j) ≡ true
    → crane_at id (delete (λ c. c.id == j) rows) ≡ none
removed id j [] h = refl
removed id j (c ∷ rows) h = ground (arith, h, removed id j rows)

untouched :
    (id j : ℕ) (rows : List Crane)
    → (id == j) ≡ false
    → crane_at id (delete (λ c. c.id == j) rows) ≡ crane_at id rows
untouched id j [] h = refl
untouched id j (c ∷ rows) h = ground (arith, h, untouched id j rows)

-- A crane is deleted, or left.
deleted :
    (id j : ℕ) (rows : List Crane)
    → (crane_at id (delete (λ c. c.id == j) rows) ≡ crane_at id rows)
      ⊎ (crane_at id (delete (λ c. c.id == j) rows) ≡ none)
deleted id j rows = elim (Bool-cases (id == j)) [
  | inl same ↦ inr (removed id j rows same)
  | inr other ↦ inl (untouched id j rows other)
]

-- From the tables `d₀`, the crane with this id is still itself, or removed.
abbrev CraneOf : ℕ → Db → Db → Type 0
CraneOf id d₀ d = StillFound (crane_at id d₀.cranes) (crane_at id d.cranes)

Still-marked :
    (c : Crane) (id j time : ℕ) (rows : List Crane)
    → Still c (crane_at id rows)
    → Still c (crane_at id (update (λ k. k.id == j) (Crane.set_gone time) rows))
Still-marked c id j time rows h = elim (marked id j time rows) [
  | inl same ↦ subst (Still c) (sym same) h
  | inr (k, here, set) ↦ elim h [
    | inl gone ↦ cc
    | inr (c', found, kept) ↦
        let is_k : Path (Option Crane) (some c') (some k) = sym found ∙ here in
        inr (
          Crane.set_gone time k,
          set,
          set_gone-SameCrane time c k (subst (SameCrane c) (ground arith) kept),
        )
  ]
]

Still-deleted :
    (c : Crane) (id j : ℕ) (rows : List Crane)
    → Still c (crane_at id rows)
    → Still c (crane_at id (delete (λ k. k.id == j) rows))
Still-deleted c id j rows h = elim (deleted id j rows) [
  | inl same ↦ subst (Still c) (sym same) h
  | inr gone ↦ inl gone
]

StillFound-marked :
    (o : Option Crane) (id j time : ℕ) (rows : List Crane)
    → StillFound o (crane_at id rows)
    → StillFound o (crane_at id (update (λ k. k.id == j) (Crane.set_gone time) rows))
StillFound-marked (some c) id j time rows h = Still-marked c id j time rows h
StillFound-marked none id j time rows h = elim (marked id j time rows) [
  | inl same ↦ same ∙ h
  | inr (k, here, _) ↦ cc
]

StillFound-deleted :
    (o : Option Crane) (id j : ℕ) (rows : List Crane)
    → StillFound o (crane_at id rows)
    → StillFound o (crane_at id (delete (λ k. k.id == j) rows))
StillFound-deleted (some c) id j rows h = Still-deleted c id j rows h
StillFound-deleted none id j rows h = elim (deleted id j rows) [
  | inl same ↦ same ∙ h
  | inr gone ↦ gone
]

StillFound-refl : (o : Option Crane) → StillFound o o
StillFound-refl none = refl
StillFound-refl (some c) = inr (c, refl, same_crane c)

module _ (id : ℕ) (d₀ : Db) where
  Survives-CraneOf : Survives (CraneOf id d₀)
  unfolding delete_crane_row delete_photos
  Survives-CraneOf = record {
    crane_deleted = λ j d. StillFound-deleted (crane_at id d₀.cranes) id j d.cranes;
    photo_activated = λ i d h. h;
    photo_marked = λ i d h. h;
    photos_deleted = λ test d h. h;
    photo_reported =
        λ r d d' e h. subst (CraneOf id d₀) (sym (insert_unless_reported-row r d d' e)) h;
    job_inserted = λ j d d' e h. h;
    jobs_claimed = λ jobs lease d h. h;
    job_failed = λ s i time text d h. h;
    job_completed = λ i time d h. h;
    token_inserted = λ t d d' e h. h;
    tokens_deleted = λ test d h. h;
  }

  SurvivesReport-CraneOf : SurvivesReport (CraneOf id d₀)
  SurvivesReport-CraneOf = record {
    crane_gone = λ j time d. StillFound-marked (crane_at id d₀.cranes) id j time d.cranes;
    gone_report_inserted = λ r d d' e h. h;
  }

  -- A crane with a drawn id is another one.
  crane_inserted :
      (env : Env) → ((k : ℕ) → (env.uuid7 k == id) ≡ false) → CraneInserted env (CraneOf id d₀)
  crane_inserted env undrawn c d d' active (k, drawn) e h =
      let other : (c.id == id) ≡ false = rw drawn (undrawn k) in rw other h

-- If this id is no UUID that is drawn, then over any sequence of transactions a crane with the id is
-- removed, or is still there with all that it had but its status and the time of its last change, and
-- its status is the same or has become gone, so a crane that is gone stays gone; and where no crane has
-- the id, none comes to have it.
pub run-SameCrane :
    (env : Env) (schedule : List (Transaction × Conditions)) (s : System) (id : ℕ)
    → ((k : ℕ) → (env.uuid7 k == id) ≡ false)
    → StillFound (crane_at id s.tables.cranes) (crane_at id (run env schedule s).tables.cranes)
run-SameCrane env schedule s id undrawn =
    run_keeps env
      (perform-Keeps env (
        Respects-Survives env (Survives-CraneOf id s.tables)
          (crane_inserted id s.tables env undrawn) (SurvivesReport-CraneOf id s.tables)
          (λ p d d' new drawn e h. h)))
      schedule s (StillFound-refl (crane_at id s.tables.cranes))
