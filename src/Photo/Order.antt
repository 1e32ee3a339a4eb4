-- ===== src/Photo/Order.antt =====
-- Rows in the order of `ORDER BY id DESC`, which the pages of app/services/photo.py are cut from.
use crane_tracker.Base.{
  ℕ, ◌≡◌, ◌≤◌, refl, Bool, true, false, List, [], ◌∷◌, ◌&&◌, ◌==◌, arith, not, ltb, all, any,
  select, order_by, insert_by, descending, if◌then◌else◌,
}
use crane_tracker.Models.{CranePhoto}

abbrev pub has_id : ℕ → CranePhoto → Bool
has_id id q = q.id == id

-- The ids of the photos are distinct, as their primary key says.
abbrev pub distinct : List CranePhoto → Bool
distinct [] = true
distinct (p ∷ ps) = not (any (has_id p.id) ps) && distinct ps

abbrev pub newest : CranePhoto → CranePhoto → Bool
newest = descending (λ p. p.id)

-- The ids fall along the list.
abbrev pub falls : List CranePhoto → Bool
falls [] = true
falls (p ∷ ps) = all (λ q. ltb q.id p.id) ps && falls ps

pub all-mono_below :
    (i j : ℕ) (ps : List CranePhoto)
    → i ≤ j
    → all (λ q. ltb q.id i) ps ≡ true
    → all (λ q. ltb q.id j) ps ≡ true
all-mono_below i j [] h a = refl
all-mono_below i j (q ∷ ps) h a = ground (arith, all-mono_below i j ps)

pub all-insert_below :
    (i : ℕ) (x : CranePhoto) (ps : List CranePhoto)
    → all (λ q. ltb q.id i) (insert_by newest x ps) ≡ (ltb x.id i && all (λ q. ltb q.id i) ps)
all-insert_below i x [] = refl
all-insert_below i x (q ∷ ps) = ground (arith, all-insert_below i x ps)

pub falls-insert_by :
    (x : CranePhoto) (ps : List CranePhoto)
    → any (has_id x.id) ps ≡ false
    → falls ps ≡ true
    → falls (insert_by newest x ps) ≡ true
falls-insert_by x [] u f = refl
falls-insert_by x (q ∷ ps) u f =
    ground (arith, all-insert_below q.id x ps, all-mono_below q.id x.id ps, falls-insert_by x ps)

pub any-insert_by :
    (id : ℕ) (x : CranePhoto) (ps : List CranePhoto)
    → any (has_id id) (insert_by newest x ps) ≡ any (has_id id) (x ∷ ps)
any-insert_by id x [] = refl
any-insert_by id x (q ∷ ps) = ground (arith, any-insert_by id x ps)

pub any-order_by :
    (id : ℕ) (ps : List CranePhoto) → any (has_id id) (order_by newest ps) ≡ any (has_id id) ps
any-order_by id [] = refl
any-order_by id (q ∷ ps) =
    ground (arith, any-insert_by id q (order_by newest ps), any-order_by id ps)

pub falls-order_by : (ps : List CranePhoto) → distinct ps ≡ true → falls (order_by newest ps) ≡ true
falls-order_by [] u = refl
falls-order_by (q ∷ ps) u =
    ground (arith, any-order_by q.id ps, falls-insert_by q (order_by newest ps), falls-order_by ps)

pub any-select :
    (id : ℕ) (test : CranePhoto → Bool) (ps : List CranePhoto)
    → any (has_id id) ps ≡ false
    → any (has_id id) (select test ps) ≡ false
any-select id test [] h = refl
any-select id test (q ∷ ps) h = ground (arith, any-select id test ps)

pub distinct-select :
    (test : CranePhoto → Bool) (ps : List CranePhoto)
    → distinct ps ≡ true
    → distinct (select test ps) ≡ true
distinct-select test [] h = refl
distinct-select test (q ∷ ps) h = ground (arith, any-select q.id test ps, distinct-select test ps)

pub insert_front :
    (x : CranePhoto) (ps : List CranePhoto)
    → all (λ q. ltb q.id x.id) ps ≡ true
    → insert_by newest x ps ≡ x ∷ ps
insert_front x [] h = refl
insert_front x (q ∷ ps) h = ground arith

pub all-select_below :
    (i : ℕ) (test : CranePhoto → Bool) (ps : List CranePhoto)
    → all (λ q. ltb q.id i) ps ≡ true
    → all (λ q. ltb q.id i) (select test ps) ≡ true
all-select_below i test [] h = refl
all-select_below i test (q ∷ ps) h = ground (arith, all-select_below i test ps)

-- A restriction commutes with the order.
pub select-insert_by :
    (test : CranePhoto → Bool) (x : CranePhoto) (ps : List CranePhoto)
    → falls ps ≡ true
    → any (has_id x.id) ps ≡ false
    → select test (insert_by newest x ps)
      ≡ (if test x then insert_by newest x (select test ps) else select test ps)
select-insert_by test x [] f u = ground arith
select-insert_by test x (q ∷ ps) f u = ground (
  arith,
  select-insert_by test x ps,
  all-mono_below q.id x.id ps,
  all-select_below x.id test ps,
  insert_front x (select test ps),
)

pub select-order_by :
    (test : CranePhoto → Bool) (ps : List CranePhoto)
    → distinct ps ≡ true
    → select test (order_by newest ps) ≡ order_by newest (select test ps)
select-order_by test [] h = refl
select-order_by test (q ∷ ps) h = ground (
  arith,
  falls-order_by ps,
  any-order_by q.id ps,
  select-insert_by test q (order_by newest ps),
  select-order_by test ps,
)
