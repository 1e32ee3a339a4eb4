-- ===== src/Crane/Creation.antt =====
-- `create_crane` of app/services/crane.py on each of its outcomes.
use crane_tracker.Base.{
  ◌≡◌, refl, ap, Bool, true, false, none, some, [], ◌∷◌, ◌||◌, ◌⊎◌, inl, inr, arith, not,
  if◌then◌else◌,
}
use crane_tracker.Models.{Crane, CraneStatus, Db}
use crane_tracker.Errors.{
  Result, ok, err, Error, duplicate_crane, sql_alchemy, geocode_retrieval, unexpected,
}
use crane_tracker.Env.{Env, Requests, Answer, Body}
use crane_tracker.Database.{insert_crane}
use crane_tracker.Exec.{World, now, query, execute, draw, ◌>>=◌}
use crane_tracker.Geocode.{GeocodeData, reverse_geocode, read_answer, read_body, bad_status, no_get}
use crane_tracker.Schemas.{CraneInput}
use crane_tracker.Crane.{
  create_crane, warn_of_duplicate, geocode_or_none, has_neighbor, point_of, no_geocode, new_crane,
}

abbrev pub or_nothing : Result GeocodeData → GeocodeData
or_nothing (ok place) = place
or_nothing (err e) = no_geocode

-- what the geocoding service says of a place, or nothing
abbrev pub place_of : Env → CraneInput → GeocodeData
place_of env input = or_nothing (reverse_geocode env.requests input.lat input.lng)

pub record IsCreated (env : Env) (input : CraneInput) (override : Bool) (d d' : Db) (c : Crane)
    : Type 0 where
  pub unwarned : (override || not (has_neighbor env (point_of input) d)) ≡ true
  pub stored : d'.cranes ≡ c ∷ d.cranes
  pub location : c.location ≡ point_of input
  pub status : c.status ≡ CraneStatus.active
  pub city : c.city ≡ (place_of env input).city
  pub neighborhood : c.neighborhood ≡ (place_of env input).neighborhood

-- The place or nothing, unless the body is JSON that is no object, or has an address that is none.
Settles : Result GeocodeData → Type 0
Settles r = (geocode_or_none r ≡ ok (or_nothing r)) ⊎ (geocode_or_none r ≡ err (unexpected no_get))

body-Settles : (b : Body) → Settles (read_body b)
unfolding Settles geocode_or_none read_body
body-Settles Body.no_json = inl refl
body-Settles Body.no_object = inr refl
body-Settles Body.no_address_object = inr refl
body-Settles (Body.json none) = inl refl
body-Settles (Body.json (some [])) = inl refl
body-Settles (Body.json (some (entry ∷ rest))) = inl refl

answer-Settles : (r : Requests) (a : Answer) → Settles (read_answer r a)
unfolding Settles geocode_or_none read_answer
answer-Settles r Answer.timeout = inl refl
answer-Settles r Answer.connection_error = inl refl
answer-Settles r (Answer.request_error text) = inl refl
answer-Settles r (Answer.response code body) =
    elim (r.raises code)
      as (λ b.
        Settles (if b then err (geocode_retrieval (bad_status r code)) else read_body body)) [
          | true ↦ inl refl
          | false ↦ body-Settles body
        ]

falls_back :
    (env : Env) (input : CraneInput) → Settles (reverse_geocode env.requests input.lat input.lng)
unfolding reverse_geocode
falls_back env input = answer-Settles env.requests (env.requests.get input.lat input.lng)

stored_crane : (c : Crane) (d d' : Db) → insert_crane c d ≡ ok d' → d'.cranes ≡ c ∷ d.cranes
unfolding insert_crane
stored_crane c d d' h = ground arith

created_row :
    (env : Env) (input : CraneInput) (override : Bool) (w w' : World) (c : Crane)
    → create_crane env input override w ≡ (ok c, w')
    → ((override || not (has_neighbor env (point_of input) w.working)) ≡ true)
      × (c ≡ new_crane input (place_of env input) (env.uuid7 w.drawn) (now w))
      × (insert_crane c w.working ≡ ok w'.working)
unfolding create_crane warn_of_duplicate ◌>>=◌ query execute draw Settles
created_row env input override w w' c h = ground (arith, falls_back env input)

-- If `create_crane` returns a crane, then it was asked to ignore neighbors or there is none, and the
-- crane is the one new row: active, at the point of the input, with the city and the neighborhood
-- that the geocoding service gave, or with none where that failed.
pub create_crane_ok :
    (env : Env) (input : CraneInput) (override : Bool) (w w' : World) (c : Crane)
    → create_crane env input override w ≡ (ok c, w')
    → IsCreated env input override w.working w'.working c
create_crane_ok env input override w w' c h =
    let (unwarned, row, inserted) = created_row env input override w w' c h in
    record {
      unwarned = unwarned;
      stored = stored_crane c w.working w'.working inserted;
      location = ap (λ r. r.location) row;
      status = ap (λ r. r.status) row;
      city = ap (λ r. r.city) row;
      neighborhood = ap (λ r. r.neighborhood) row;
    }

-- the refusal of a neighbor, or of the database
abbrev pub is_refusal : Error → Bool
is_refusal duplicate_crane = true
is_refusal (sql_alchemy _) = true
is_refusal _ = false
