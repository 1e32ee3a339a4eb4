-- ===== src/System/Drain/Rows.antt =====
-- The jobs that are open and those that a batch selects.
use crane_tracker.Base.{
  map, ◌++◌, ℕ, zero, suc, insert_by, ◌≡◌, ◌≤◌, refl, ap, ◌∙◌, String, Bool, true, false, List, [],
  ◌∷◌, ◌&&◌, ◌||◌, not, arith, any, all, count, length, take, select, order_by, text_eq,
}
use crane_tracker.Models.{CranePhoto, CranePhotoStatus, OutboxJob, JobOperation, photo_status_eq}
use crane_tracker.Exec.{World, Request, put, remove, now}
use crane_tracker.Worker.Jobs.{claim_of, is_claimable, is_among}
use crane_tracker.Worker.Completion.{is_done, removals}
use crane_tracker.System.Outbox.Rows.{has_open_job}

-- a job that the batch may take
abbrev pub free : World → OutboxJob → Bool
free w j = is_claimable JobOperation.delete (now w) j && not (w.locked j.id)

pub take_all {ℓ} : {A : Type ℓ} (n : ℕ) (xs : List A) → length xs ≤ n → take n xs ≡ xs
take_all zero [] h = refl
take_all zero (x ∷ xs) h = absurd (omega arith)
take_all (suc n) [] h = refl
take_all (suc n) (x ∷ xs) h = ap (λ ys. x ∷ ys) (take_all n xs (omega arith))

any-insert_by :
    (before : OutboxJob → OutboxJob → Bool) (q : OutboxJob → Bool) (j : OutboxJob)
    (rows : List OutboxJob)
    → any q (insert_by before j rows) ≡ (q j || any q rows)
any-insert_by before q j [] = refl
any-insert_by before q j (k ∷ rows) = ground (arith, any-insert_by before q j rows)

length-insert_by :
    (before : OutboxJob → OutboxJob → Bool) (j : OutboxJob) (rows : List OutboxJob)
    → length (insert_by before j rows) ≡ suc (length rows)
length-insert_by before j [] = refl
length-insert_by before j (k ∷ rows) = ground (arith, length-insert_by before j rows)

pub length-order_by :
    (before : OutboxJob → OutboxJob → Bool) (rows : List OutboxJob)
    → length (order_by before rows) ≡ length rows
length-order_by before [] = refl
length-order_by before (j ∷ rows) =
    omega (arith, length-insert_by before j (order_by before rows), length-order_by before rows)

pub any-order_by :
    (before : OutboxJob → OutboxJob → Bool) (q : OutboxJob → Bool) (rows : List OutboxJob)
    → any q (order_by before rows) ≡ any q rows
any-order_by before q [] = refl
any-order_by before q (j ∷ rows) =
    any-insert_by before q j (order_by before rows)
    ∙ ap (λ b. q j || b) (any-order_by before q rows)

-- The rows that are open and have `q` are among those that are selected.
pub open_selected :
    (p q : OutboxJob → Bool) (rows : List OutboxJob)
    → all (λ j. is_done j || p j) rows ≡ true
    → any (λ j. q j && not (is_done j)) rows ≡ true
    → any q (select p rows) ≡ true
open_selected p q [] h found = found
open_selected p q (j ∷ rows) h found = ground (arith, open_selected p q rows)

pub free-le :
    (w : World) (rows : List OutboxJob)
    → length (select (free w) rows) ≤ count (λ j. not (is_done j)) rows
free-le w [] = omega arith
free-le w (j ∷ rows) = ground (arith, free-le w rows)

selected_further :
    (k : OutboxJob) (jobs rows : List OutboxJob)
    → all (λ j. is_done j || is_among jobs j) rows ≡ true
    → all (λ j. is_done j || is_among (k ∷ jobs) j) rows ≡ true
selected_further k jobs [] h = refl
selected_further k jobs (j ∷ rows) h = ground (arith, selected_further k jobs rows)

-- Each row that is open is itself selected.
pub own_selected :
    (p : OutboxJob → Bool) (rows : List OutboxJob)
    → all (λ j. is_done j || p j) rows ≡ true
    → all (λ j. is_done j || is_among (select p rows) j) rows ≡ true
own_selected p [] h = refl
own_selected p (j ∷ rows) h =
    ground (arith, own_selected p rows, selected_further j (select p rows) rows)

-- no photo is marked where each that is marked has an open job and no job is open
pub none_open :
    (key : String) (jobs : List OutboxJob) → all is_done jobs ≡ true → has_open_job jobs key ≡ false
none_open key [] h = refl
none_open key (j ∷ jobs) h = ground (arith, none_open key jobs)

abbrev pub awaits_deletion : CranePhoto → Bool
awaits_deletion p = photo_status_eq p.status CranePhotoStatus.pending_delete

-- a request to remove the object of this key
abbrev pub is_removal : String → Request → Bool
is_removal key (put k type file) = false
is_removal key (remove k) = text_eq k key

pub asked_each :
    (key : String) (jobs : List OutboxJob)
    → any (is_removal key) (removals (map claim_of jobs))
      ≡ any (λ j. text_eq j.storage_key key) jobs
asked_each key [] = refl
asked_each key (j ∷ jobs) = ground (arith, asked_each key jobs)

pub asked_later :
    (key : String) (before requests : List Request)
    → any (is_removal key) requests ≡ true
    → any (is_removal key) (before ++ requests) ≡ true
asked_later key [] requests h = h
asked_later key (r ∷ before) requests h = ground (arith, asked_later key before requests h)
