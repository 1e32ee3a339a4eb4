-- ===== src/Crane/Deletion.antt =====
-- `delete_crane` of app/services/crane.py: the rows and the objects that go with a crane.
use crane_tracker.Base.{
  ℕ, ◌≡◌, refl, ◌∙◌, ap, sym, String, Bool, false, some, List, [], ◌∷◌, ◌++◌, ◌==◌, arith, find,
  any, delete, map,
}
use crane_tracker.Models.{Crane, CranePhoto}
use crane_tracker.Errors.{ok, resource_not_found}
use crane_tracker.Env.{Env}
use crane_tracker.Database.{delete_crane_row, delete_photos}
use crane_tracker.Exec.{World, or_raise, Request, ask, query, ◌>>=◌}
use crane_tracker.Storage
use crane_tracker.Storage.{get_r2_config}
use crane_tracker.Crane.{delete_crane, delete_objects, photo_records}
use crane_tracker.Exec.Outcome.{bound, query-ok, execute-ok, or_raise-ok}

-- the requests that remove the objects of the photos
abbrev pub removals : List CranePhoto → List Request
removals photos = map (λ p. Request.remove p.storage_key) photos

append_assoc : (xs ys zs : List Request) → (xs ++ ys) ++ zs ≡ xs ++ (ys ++ zs)
append_assoc [] ys zs = refl
append_assoc (x ∷ xs) ys zs = ap (λ rs. x ∷ rs) (append_assoc xs ys zs)

append-nil : (xs : List Request) → xs ++ [] ≡ xs
append-nil [] = refl
append-nil (x ∷ xs) = ap (λ rs. x ∷ rs) (append-nil xs)

photo_removed :
    (env : Env) (key : String) (w w' : World)
    → Storage.delete_photo env key w ≡ (ok tt, w')
    → (w'.requests ≡ w.requests ++ Request.remove key ∷ []) × (w'.working ≡ w.working)
unfolding Storage.delete_photo Storage.get_s3_client Storage.connected Storage.checked ◌>>=◌ ask
photo_removed env key w w' h = ground arith

objects_removed :
    (env : Env) (photos : List CranePhoto) (w w' : World)
    → delete_objects env photos w ≡ (ok tt, w')
    → (w'.requests ≡ w.requests ++ removals photos) × (w'.working ≡ w.working)
unfolding delete_objects ◌>>=◌
objects_removed env [] w w' h =
    (ap (λ r. r.1.requests) (sym h) ∙ sym (append-nil w.requests), ap (λ r. r.1.working) (sym h))
objects_removed env (p ∷ photos) w w' h =
    let (a, v, first, rest) =
      bound (Storage.delete_photo env p.storage_key w) (λ _. delete_objects env photos) tt w' h in
    let (asked, same) = photo_removed env p.storage_key w v first in
    let (more, still) = objects_removed env photos v w' rest in
    (
      more
          ∙ ap (λ rs. rs ++ removals photos) asked
          ∙ append_assoc w.requests (Request.remove p.storage_key ∷ []) (removals photos),
      still ∙ same,
    )

any-delete : {A : Type 0} (p : A → Bool) (xs : List A) → any p (delete p xs) ≡ false
any-delete p [] = refl
any-delete p (x ∷ xs) = ground (arith, any-delete p xs)

-- What is left of a crane, and what was asked of the bucket.
pub record IsDeleted (id : ℕ) (w w' : World) : Type 0 where
  pub crane_gone : any (λ c. c.id == id) w'.working.cranes ≡ false
  pub photos_gone : any (λ p. p.crane_id == id) w'.working.photos ≡ false
  pub reports_gone : any (λ r. r.crane_id == id) w'.working.gone_reports ≡ false
  pub objects_gone : w'.requests ≡ w.requests ++ removals (photo_records id w.working)

found-id :
    (id : ℕ) (cranes : List Crane) (c : Crane) → find (λ c. c.id == id) cranes ≡ some c → c.id ≡ id
found-id id [] c h = cc
found-id id (x ∷ cranes) c h = ground (arith, found-id id cranes c)

row-IsDeleted :
    (id : ℕ) (w w' : World)
    → w'.working ≡ delete_crane_row id w.working
    → w'.requests ≡ w.requests ++ removals (photo_records id w.working)
    → IsDeleted id w w'
unfolding delete_crane_row delete_photos
row-IsDeleted id w w' tables asked = record {
  crane_gone = rw tables (any-delete (λ c. c.id == id) w.working.cranes);
  photos_gone = rw tables (any-delete (λ p. p.crane_id == id) w.working.photos);
  reports_gone = rw tables (any-delete (λ r. r.crane_id == id) w.working.gone_reports);
  objects_gone = asked;
}

-- If `delete_crane` returns, then the crane, its photos and its gone reports are gone from the tables,
-- and the bucket was asked to remove the object of each of its photos, the oldest first.
pub delete_crane_ok :
    (env : Env) (id : ℕ) (w w' : World) → delete_crane env id w ≡ (ok tt, w') → IsDeleted id w w'
unfolding delete_crane ◌>>=◌
delete_crane_ok env id w w' h =
    let (o, w₁, asked, h₁) = bound (query (λ d. find (λ c. c.id == id) d.cranes) w) _ tt w' h in
    let (c, w₂, raised, h₂) = bound (or_raise o (resource_not_found "crane" id) w₁) _ tt w' h₁ in
    let (photos, w₃, selected, h₃) = bound (query (photo_records c.id) w₂) _ tt w' h₂ in
    let (_, w₄, removed, h₄) = bound (delete_objects env photos w₃) _ tt w' h₃ in
    let (find_o, work₁, req₁) = query-ok (λ d. find (λ c. c.id == id) d.cranes) o w w₁ asked in
    let (some_c, same₂) = or_raise-ok o (resource_not_found "crane" id) c w₁ w₂ raised in
    let (sel, work₃, req₃) = query-ok (photo_records c.id) photos w₂ w₃ selected in
    let (req₄, work₄) = objects_removed env photos w₃ w₄ removed in
    let (work₅, req₅) = execute-ok (delete_crane_row id) w₄ w' h₄ in
    let same_id : c.id ≡ id = found-id id w.working.cranes c (sym find_o ∙ some_c) in
    let work₂ : w₂.working ≡ w.working = ap (λ v. v.working) same₂ ∙ work₁ in
    let chosen : photos ≡ photo_records id w.working =
      sel ∙ ap (photo_records c.id) work₂ ∙ ap (λ i. photo_records i w.working) same_id in
    row-IsDeleted id w w' (work₅ ∙ ap (delete_crane_row id) (work₄ ∙ work₃ ∙ work₂)) (
      req₅
      ∙ req₄
      ∙ ap (λ rs. rs ++ removals photos) (req₃ ∙ ap (λ v. v.requests) same₂ ∙ req₁)
      ∙ ap (λ ps. w.requests ++ removals ps) chosen)
