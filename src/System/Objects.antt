-- ===== src/System/Objects.antt =====
-- The requests to the bucket leave the tables alone.
use crane_tracker.Base.{ℕ, String, Bool, true, false, List, [], ◌∷◌}
use crane_tracker.Models.{Db, CranePhoto}
use crane_tracker.Env.{Env}
use crane_tracker.Exec.{Reply}
use crane_tracker.Exec.Keeps.{Keeps, keeps_rules, Keeps-bind}
use crane_tracker.Storage
use crane_tracker.Crane

module _ (env : Env) {P : Db → Type 0} where
  connected-Keeps : (b : Bool) → Keeps P (Storage.connected b)
  unfolding Storage.connected
  connected-Keeps true = search keeps_rules
  connected-Keeps false = search keeps_rules

  checked-Keeps : (text : String) (r : Reply) → Keeps P (Storage.checked env text r)
  unfolding Storage.checked
  checked-Keeps text Reply.done = search keeps_rules
  checked-Keeps text Reply.refused = search keeps_rules
  checked-Keeps text (Reply.broken other) = search keeps_rules

  get_s3_client-Keeps : Keeps P (Storage.get_s3_client env)
  unfolding Storage.get_s3_client
  get_s3_client-Keeps = search (keeps_rules, connected-Keeps)

  pub upload_photo-Keeps :
      (file : List ℕ) (key type : String) → Keeps P (Storage.upload_photo env file key type)
  unfolding Storage.upload_photo
  upload_photo-Keeps file key type =
      search (keeps_rules, get_s3_client-Keeps, checked-Keeps) depth 9

  pub delete_photo-Keeps : (key : String) → Keeps P (Storage.delete_photo env key)
  unfolding Storage.delete_photo
  delete_photo-Keeps key = search (keeps_rules, get_s3_client-Keeps, checked-Keeps) depth 9

  pub delete_objects-Keeps : (photos : List CranePhoto) → Keeps P (Crane.delete_objects env photos)
  unfolding Crane.delete_objects
  delete_objects-Keeps [] = search keeps_rules
  delete_objects-Keeps (photo ∷ photos) =
      Keeps-bind _ _ (delete_photo-Keeps photo.storage_key) (λ _. delete_objects-Keeps photos)
