-- ===== src/Base/Order.antt =====
-- `ORDER BY`: rows with equal keys keep the order of the table.
use Prim.Native.Nat.{ℕ}
use mathlib.Core.Path.{◌≡◌, refl}
use mathlib.Core.Bool.{Bool, ◌&&◌}
use mathlib.Core.List.{List, [], ◌∷◌}
use native.Mathlib.Omega.{arith}
use crane_tracker.Base.Tests.{if◌then◌else◌, leb}
use crane_tracker.Base.Rows.{count, all}

module _ {ℓ} {A : Type ℓ} (before : A → A → Bool) where
  abbrev pub insert_by : A → List A → List A
  insert_by x [] = x ∷ []
  insert_by x (y ∷ ys) = if before x y then x ∷ y ∷ ys else y ∷ insert_by x ys

  -- `before x y` when `x` may stand ahead of `y`
  abbrev pub order_by : List A → List A
  order_by [] = []
  order_by (x ∷ xs) = insert_by x (order_by xs)

abbrev pub ascending {ℓ} : {A : Type ℓ} → (A → ℕ) → A → A → Bool
ascending key x y = leb (key x) (key y)

abbrev pub descending {ℓ} : {A : Type ℓ} → (A → ℕ) → A → A → Bool
descending key x y = leb (key y) (key x)

module _ {ℓ} {A : Type ℓ} (before : A → A → Bool) (p : A → Bool) where
  count-insert_by : (x : A) (xs : List A) → count p (insert_by before x xs) ≡ count p (x ∷ xs)
  count-insert_by x [] = refl
  count-insert_by x (y ∷ ys) = ground (arith, count-insert_by x ys)

  pub count-order_by : (xs : List A) → count p (order_by before xs) ≡ count p xs
  count-order_by [] = refl
  count-order_by (x ∷ xs) =
      ground (arith, count-insert_by x (order_by before xs), count-order_by xs)

  all-insert_by : (x : A) (xs : List A) → all p (insert_by before x xs) ≡ (p x && all p xs)
  all-insert_by x [] = refl
  all-insert_by x (y ∷ ys) = ground (arith, all-insert_by x ys)

  pub all-order_by : (xs : List A) → all p (order_by before xs) ≡ all p xs
  all-order_by [] = refl
  all-order_by (x ∷ xs) = ground (arith, all-insert_by x (order_by before xs), all-order_by xs)
