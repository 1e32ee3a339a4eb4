-- ===== src/Photo/Paging.antt =====
-- The pages of the admin's review: `get_crane_photos` of app/services/photo.py and its handler in
-- app/routes/crane.py, where the last id of a page is the cursor of the next.
use crane_tracker.Base.{
  ℕ, zero, suc, ◌≡◌, refl, sym, ◌∙◌, ap, Bool, true, Option, none, some, List, [], ◌∷◌, ◌&&◌, arith,
  ltb, all, select, take, drop, last?, order_by, all-take, all-order_by, all-select_self, ◌⊎◌, inl,
  inr,
}
use crane_tracker.Models.{CranePhoto, Db}
use crane_tracker.Errors.{ok}
use crane_tracker.Exec.{World, query}
use crane_tracker.Photo.Review.{is_listed, is_past, listing, get_crane_photos}
use crane_tracker.Photo.Order.{
  distinct, newest, falls, falls-order_by, distinct-select, select-order_by,
}

all-last :
    (test : CranePhoto → Bool) (ps : List CranePhoto) (p : CranePhoto)
    → all test ps ≡ true
    → last? ps ≡ some p
    → test p ≡ true
all-last test [] p a h = cc
all-last test (q ∷ []) p a h = ground arith
all-last test (q ∷ r ∷ ps) p a h = ground (arith, all-last test (r ∷ ps) p)

select-below_all :
    (i : ℕ) (ps : List CranePhoto)
    → all (λ q. ltb q.id i) ps ≡ true
    → select (λ q. ltb q.id i) ps ≡ ps
select-below_all i [] h = refl
select-below_all i (q ∷ ps) h = ground (arith, select-below_all i ps)

last-cons :
    (q p : CranePhoto) (ps : List CranePhoto)
    → last? (q ∷ ps) ≡ some p
    → ((ps ≡ []) × (q ≡ p)) ⊎ (last? ps ≡ some p)
last-cons q p [] h = ground arith
last-cons q p (r ∷ ps) h = inr h

take-nil : (n : ℕ) (ps : List CranePhoto) → take n ps ≡ [] → drop n ps ≡ ps
take-nil zero ps h = refl
take-nil (suc n) [] h = refl
take-nil (suc n) (q ∷ ps) h = cc

-- What lies below the last row of a page is the rest.
select-below_last :
    (n : ℕ) (ps : List CranePhoto) (p : CranePhoto)
    → falls ps ≡ true
    → last? (take n ps) ≡ some p
    → select (λ q. ltb q.id p.id) ps ≡ drop n ps
select-below_last zero ps p f h = cc
select-below_last (suc n) [] p f h = cc
select-below_last (suc n) (q ∷ ps) p f h = elim (last-cons q p (take n ps) h) [
  | inl (e, same) ↦ ground (arith, select-below_all q.id ps, take-nil n ps e)
  | inr more ↦ ground (
    arith,
    select-below_last n ps p,
    all-last (λ r. ltb r.id q.id) (take n ps) p,
    all-take (λ r. ltb r.id q.id) n ps,
  )
]

abbrev is_before : Option ℕ → ℕ → Bool
is_before none i = true
is_before (some c) i = ltb i c

-- Past an earlier cursor, being past a later one is all that is asked.
select-past :
    (d : Db) (r : Bool) (cursor : Option ℕ) (i : ℕ) (ps : List CranePhoto)
    → is_before cursor i ≡ true
    → select (λ p. is_listed d r p && is_past (some i) p) ps
      ≡ select (λ q. ltb q.id i) (select (λ p. is_listed d r p && is_past cursor p) ps)
select-past d r cursor i [] h = refl
select-past d r none i (p ∷ ps) h = ground (arith, select-past d r none i ps h)
select-past d r (some c) i (p ∷ ps) h = ground (arith, select-past d r (some c) i ps h)

is_before_past :
    (d : Db) (r : Bool) (cursor : Option ℕ) (p : CranePhoto)
    → (is_listed d r p && is_past cursor p) ≡ true
    → is_before cursor p.id ≡ true
is_before_past d r none p h = refl
is_before_past d r (some c) p h = ground arith

last-is_before :
    (d : Db) (r : Bool) (cursor : Option ℕ) (limit : ℕ) (p : CranePhoto)
    → last? (take limit (listing r cursor d)) ≡ some p
    → is_before cursor p.id ≡ true
unfolding listing
last-is_before d r cursor limit p h =
    let test : CranePhoto → Bool = λ q. is_listed d r q && is_past cursor q in
    let asked : test p ≡ true =
      all-last test (take limit (listing r cursor d)) p
        (all-take test limit (listing r cursor d)
          (all-order_by newest test (select test d.photos) ∙ all-select_self test d.photos))
        h in
    is_before_past d r cursor p asked

-- The listing past the last photo of a page is the listing without the page.
listing-next :
    (reported_only : Bool) (cursor : Option ℕ) (limit : ℕ) (d : Db) (p : CranePhoto)
    → distinct d.photos ≡ true
    → last? (take limit (listing reported_only cursor d)) ≡ some p
    → listing reported_only (some p.id) d ≡ drop limit (listing reported_only cursor d)
unfolding listing
listing-next r cursor limit d p u h =
    let asked : List CranePhoto = select (λ q. is_listed d r q && is_past cursor q) d.photos in
    let apart : distinct asked ≡ true =
      distinct-select (λ q. is_listed d r q && is_past cursor q) d.photos u in
    ap (order_by newest)
      (select-past d r cursor p.id d.photos (last-is_before d r cursor limit p h))
    ∙ sym (select-order_by (λ q. ltb q.id p.id) asked apart)
    ∙ select-below_last limit (order_by newest asked) p (falls-order_by asked apart) h

take-take : (n : ℕ) (ps : List CranePhoto) → take n (take (suc n) ps) ≡ take n ps
take-take zero ps = refl
take-take (suc n) [] = refl
take-take (suc n) (q ∷ ps) = ap (λ rest. q ∷ rest) (take-take n ps)

get_crane_photos_lem :
    (cursor : Option ℕ) (limit : ℕ) (reported_only : Bool) (w w' : World) (photos : List CranePhoto)
    → get_crane_photos cursor limit reported_only w ≡ (ok photos, w')
    → photos ≡ take (suc limit) (listing reported_only cursor w.working)
unfolding get_crane_photos query
get_crane_photos_lem cursor limit r w w' photos h = ground arith

-- If the ids of the photos are distinct and `p` is the last of the first `limit` photos of a page,
-- then a later page with `p` as its cursor, on the same tables, continues the same listing where the
-- first stopped: pages neither overlap nor leave a photo out.
pub get_crane_photos_continue :
    (reported_only : Bool) (cursor : Option ℕ) (limit more : ℕ) (v v' w w' : World)
    (photos next : List CranePhoto) (p : CranePhoto)
    → distinct v.working.photos ≡ true
    → get_crane_photos cursor limit reported_only v ≡ (ok photos, v')
    → last? (take limit photos) ≡ some p
    → w.working ≡ v.working
    → get_crane_photos (some p.id) more reported_only w ≡ (ok next, w')
    → let listed = listing reported_only cursor v.working in
      (take limit photos ≡ take limit listed) × (next ≡ take (suc more) (drop limit listed))
get_crane_photos_continue r cursor limit more v v' w w' photos next p apart first at same second =
    let listed : List CranePhoto = listing r cursor v.working in
    let page : take limit photos ≡ take limit listed =
      ap (take limit) (get_crane_photos_lem cursor limit r v v' photos first)
      ∙ take-take limit listed in
    (
      page,
      get_crane_photos_lem (some p.id) more r w w' next second
          ∙ ap (λ d. take (suc more) (listing r (some p.id) d)) same
          ∙ ap (take (suc more))
              (listing-next r cursor limit v.working p apart (ap last? (sym page) ∙ at)),
    )
