-- ===== src/Crane/Listing.antt =====
-- `get_cranes` of app/services/crane.py: the bounds and the cut.
use crane_tracker.Base.{
  ℕ, zero, suc, ◌≡◌, refl, ◌∙◌, ap, Bool, true, List, [], ◌∷◌, map, ◌&&◌, ◌||◌, arith, not, ltb,
  length, take, min, length-take,
}
use crane_tracker.Base.Int.{ℤ, pos, negsuc, negated, ltb_ℤ, leb_ℤ}
use crane_tracker.Base.Float.{
  Float, nan, minus_infinity, plus_infinity, number, is_nan, ltb_Float, leb_Float,
}
use crane_tracker.Models.{Crane}
use crane_tracker.Errors.{ok}
use crane_tracker.Env.{Env, Envelope}
use crane_tracker.Exec.{World, query, ◌>>=◌}
use crane_tracker.Schemas.{CraneListResponse}
use crane_tracker.Crane.{get_cranes, check_bounds, is_outside, cranes_within, summarize}

module _ {ℓ k} {A : Type ℓ} {B : Type k} where
  length-map : (f : A → B) (xs : List A) → length (map f xs) ≡ length xs
  length-map f [] = refl
  length-map f (x ∷ xs) = ap suc (length-map f xs)

  take-map-take :
      (f : A → B) (n : ℕ) (xs : List A) → take n (map f (take (suc n) xs)) ≡ map f (take n xs)
  take-map-take f zero xs = refl
  take-map-take f (suc n) [] = refl
  take-map-take f (suc n) (x ∷ xs) = ap (λ ys. f x ∷ ys) (take-map-take f n xs)

-- NaN, or a number from minus the bound to the bound.
abbrev is_within : ℕ → Float → Bool
is_within bound x =
    is_nan x || leb_Float (number (negated bound)) x && leb_Float x (number (pos bound))

-- NaN, or in this order
abbrev in_order : Float → Float → Bool
in_order x y = is_nan x || is_nan y || ltb_Float x y

-- A box on the globe, with its corners in their order, where a coordinate that is NaN meets all of it.
abbrev pub is_valid : Envelope → Bool
is_valid box =
    is_within 900000000 box.south
    && is_within 900000000 box.north
    && is_within 1800000000 box.west
    && is_within 1800000000 box.east
    && in_order box.south box.north
    && in_order box.west box.east

not-ltb_ℤ : (x y : ℤ) → leb_ℤ y x ≡ not (ltb_ℤ x y)
not-ltb_ℤ (pos m) (pos n) = ground arith
not-ltb_ℤ (pos m) (negsuc n) = ground arith
not-ltb_ℤ (negsuc m) (pos n) = ground arith
not-ltb_ℤ (negsuc m) (negsuc n) = ground arith

not-is_outside : (bound : ℕ) (x : Float) → is_within bound x ≡ not (is_outside bound x)
not-is_outside bound nan = refl
not-is_outside bound minus_infinity = refl
not-is_outside bound plus_infinity = refl
not-is_outside bound (number a) =
    ground (arith, not-ltb_ℤ a (negated bound), not-ltb_ℤ (pos bound) a)

not-leb_Float : (x y : Float) → in_order y x ≡ (is_nan x || is_nan y || not (leb_Float x y))
not-leb_Float nan nan = refl
not-leb_Float nan minus_infinity = refl
not-leb_Float nan plus_infinity = refl
not-leb_Float minus_infinity nan = refl
not-leb_Float minus_infinity minus_infinity = refl
not-leb_Float minus_infinity plus_infinity = refl
not-leb_Float plus_infinity nan = refl
not-leb_Float plus_infinity minus_infinity = refl
not-leb_Float plus_infinity plus_infinity = refl
not-leb_Float nan (number n) = refl
not-leb_Float minus_infinity (number n) = refl
not-leb_Float plus_infinity (number n) = refl
not-leb_Float (number m) nan = refl
not-leb_Float (number m) minus_infinity = refl
not-leb_Float (number m) plus_infinity = refl
not-leb_Float (number m) (number n) = ground (arith, not-ltb_ℤ n m)

check_bounds-is_valid : (box : Envelope) → check_bounds box ≡ ok tt → is_valid box ≡ true
unfolding check_bounds
check_bounds-is_valid box h = ground (
  arith,
  not-is_outside 900000000 box.south,
  not-is_outside 900000000 box.north,
  not-is_outside 1800000000 box.west,
  not-is_outside 1800000000 box.east,
  not-leb_Float box.north box.south,
  not-leb_Float box.east box.west,
)

get_cranes_rows :
    (env : Env) (box : Envelope) (limit : ℕ) (w w' : World) (r : CraneListResponse)
    → get_cranes env box limit w ≡ (ok r, w')
    → let rows = map (summarize w.working) (take (suc limit) (cranes_within env box w.working)) in
      (check_bounds box ≡ ok tt)
      × (r.cranes ≡ take limit rows)
      × (r.truncated ≡ ltb limit (length rows))
unfolding get_cranes ◌>>=◌ query
get_cranes_rows env box limit w w' r h = ground arith

is_cut : (limit n : ℕ) → ltb limit (min (suc limit) n) ≡ ltb limit n
is_cut limit n = ground arith

-- If `get_cranes` returns, then each coordinate of the box is NaN or on the globe, and the corners are
-- in their order where neither of the two is NaN; the answer is the summaries of the newest `limit` cranes within it, and it says that it is truncated
-- exactly when there are more.
pub get_cranes_ok :
    (env : Env) (box : Envelope) (limit : ℕ) (w w' : World) (r : CraneListResponse)
    → get_cranes env box limit w ≡ (ok r, w')
    → let found = cranes_within env box w.working in
      (is_valid box ≡ true)
      × (r.cranes ≡ map (summarize w.working) (take limit found))
      × (r.truncated ≡ ltb limit (length found))
get_cranes_ok env box limit w w' r h =
    let found : List Crane = cranes_within env box w.working in
    let (bounds, rows, cut) = get_cranes_rows env box limit w w' r h in
    (
      check_bounds-is_valid box bounds,
      rows ∙ take-map-take (summarize w.working) limit found,
      cut
          ∙ ap (ltb limit) (
              length-map (summarize w.working) (take (suc limit) found)
              ∙ length-take (suc limit) found)
          ∙ is_cut limit (length found),
    )
