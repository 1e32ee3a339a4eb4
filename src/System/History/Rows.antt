-- ===== src/System/History/Rows.antt =====
-- How the rows of a table change: a row is added in front, changed in its place, or removed.
use crane_tracker.Base.{
  ◌≡◌, Bool, true, List, [], ◌∷◌, Bool-cases, inl, inr, update, delete, if◌then◌else◌,
}

-- From the rows `xs` to the rows `ys`, where a row may become another by `Next`, and be removed if
-- `Removed` holds.
pub data Evolves {A : Type 0} (Next : A → A → Type 0) (Removed : Type 0)
    : List A → List A → Type 0 where
  start : Evolves Next Removed [] []
  added : {y : A} {xs ys : List A} → Evolves Next Removed xs ys → Evolves Next Removed xs (y ∷ ys)
  changed :
      {x y : A} {xs ys : List A}
      → Next x y
      → Evolves Next Removed xs ys
      → Evolves Next Removed (x ∷ xs) (y ∷ ys)
  removed :
      {x : A} {xs ys : List A}
      → Removed
      → Evolves Next Removed xs ys
      → Evolves Next Removed (x ∷ xs) ys

row_changed :
    {A : Type 0} (Q : A → Type 0) (test : A → Bool) (f : A → A) (y : A)
    → (test y ≡ true → Q y → Q (f y))
    → Q y
    → Q (if test y then f y else y)
row_changed Q test f y step n = elim (Bool-cases (test y)) [
  | inl hit ↦ rw hit (step hit n)
  | inr miss ↦ rw miss n
]

module _ {A : Type 0} {Next : A → A → Type 0} {Removed : Type 0} where
  pub unchanged : ((x : A) → Next x x) → (xs : List A) → Evolves Next Removed xs xs
  unchanged same [] = start
  unchanged same (x ∷ xs) = changed (same x) (unchanged same xs)

  -- an UPDATE that each row of the start allows
  pub Evolves-update :
      (test : A → Bool) (f : A → A)
      → ((x y : A) → test y ≡ true → Next x y → Next x (f y))
      → {xs ys : List A} → Evolves Next Removed xs ys
      → Evolves Next Removed xs (update test f ys)
  Evolves-update test f step start = start
  Evolves-update test f step (added h) = added (Evolves-update test f step h)
  Evolves-update test f step (changed {x = x} {y = y} n h) =
      changed (row_changed (Next x) test f y (step x y) n) (Evolves-update test f step h)
  Evolves-update test f step (removed r h) = removed r (Evolves-update test f step h)

  -- a DELETE
  pub Evolves-delete :
      Removed
      → (test : A → Bool) {xs ys : List A} → Evolves Next Removed xs ys
      → Evolves Next Removed xs (delete test ys)
  Evolves-delete may test start = start
  Evolves-delete may test (added {y = y} h) = elim (Bool-cases (test y)) [
    | inl hit ↦ rw hit (Evolves-delete may test h)
    | inr miss ↦ rw miss (added (Evolves-delete may test h))
  ]
  Evolves-delete may test (changed {x = x} {y = y} n h) = elim (Bool-cases (test y)) [
    | inl hit ↦ rw hit (removed may (Evolves-delete may test h))
    | inr miss ↦ rw miss (changed n (Evolves-delete may test h))
  ]
  Evolves-delete may test (removed r h) = removed r (Evolves-delete may test h)
