-- ===== src/Tests/Cranes.antt =====
-- The theorems on cranes.
use crane_tracker.Base.{
  suc, ◌≡◌, refl, Bool, true, false, none, some, [], ◌∷◌, map, take, update, length, ltb, leb,
  if◌then◌else◌, ◌==◌,
}
use crane_tracker.Models.{Crane}
use crane_tracker.Errors.{ok, err, duplicate_gone_report}
use crane_tracker.Env.{Envelope}
use crane_tracker.Base.Float.{number}
use crane_tracker.Base.Int.{pos, negsuc}
use crane_tracker.Exec.{World, ◌>>=◌, query, execute, draw, rescue}
use crane_tracker.Database.{insert_crane, insert_gone_report}
use crane_tracker.Geocode.{
  reverse_geocode, read_answer, read_body, extract_city, extract_neighborhood, first_of_fields,
}
use crane_tracker.Schemas.{CraneListResponse}
use crane_tracker.Crane.{
  create_crane, warn_of_duplicate, geocode_or_none, new_crane, report_crane_as_gone, settle_status,
  as_duplicate, hash_ip, get_cranes, check_bounds, cranes_within, summarize, or_default, reports_of,
  set_gone,
}
use crane_tracker.Crane.Creation.{IsCreated, create_crane_ok}
use crane_tracker.Crane.Reports.{report_row, report_crane_as_gone_ok, report_crane_as_gone_twice}
use crane_tracker.Storage
use crane_tracker.Crane.{delete_crane, delete_objects}
use crane_tracker.Exec.{ask}
use crane_tracker.Crane.Deletion.{IsDeleted, delete_crane_ok}
use crane_tracker.Crane.Listing.{is_valid, get_cranes_ok}
use crane_tracker.Tests.Values.{env, crane, tables, world, world_at, input}

abbrev created : Crane
created = new_crane input (record { city = some "Kyoto"; neighborhood = none }) 100 50

abbrev creates : Bool → World
creates override = (create_crane env input override world).1

creates_crane : create_crane env input true world ≡ (ok created, creates true)
unfolding create_crane warn_of_duplicate geocode_or_none reverse_geocode read_answer read_body
    extract_city extract_neighborhood first_of_fields ◌>>=◌ query execute draw insert_crane
creates_crane = refl

create_crane_ok_example : IsCreated env input true tables (creates true).working created
create_crane_ok_example = create_crane_ok env input true world (creates true) created creates_crane

abbrev reports : World → World
reports w = (report_crane_as_gone env 1 "host" (some 1) w).1

accepts : report_crane_as_gone env 1 "host" (some 1) world ≡ (ok tt, reports world)
unfolding report_crane_as_gone settle_status as_duplicate hash_ip ◌>>=◌ query execute draw rescue
    insert_gone_report
accepts = refl

report_crane_as_gone_ok_example :
    ((reports world).working.gone_reports ≡ report_row env world 1 "host" ∷ [])
    × ((reports world).working.cranes ≡ (
        if leb (or_default (some 1) 2) (suc (reports_of 1 tables))
        then update (λ c. c.id == 1) (set_gone 50) (crane ∷ [])
        else crane ∷ []))
report_crane_as_gone_ok_example =
    report_crane_as_gone_ok env 1 "host" (some 1) world (reports world) accepts

-- after a report by the same address
abbrev reported : World
reported = world_at 80 (record tables { gone_reports = report_row env world 1 "host" ∷ [] })

report_crane_as_gone_twice_example :
    ((report_crane_as_gone env 1 "host" none reported).0 ≡ err (duplicate_gone_report 1))
    × ((report_crane_as_gone env 1 "host" none reported).1.working ≡ reported.working)
unfolding hash_ip
report_crane_as_gone_twice_example =
    report_crane_as_gone_twice env 1 "host" none reported crane refl refl refl

abbrev box : Envelope
box = record {
  west = number (negsuc 10);
  south = number (negsuc 5);
  east = number (pos 10);
  north = number (pos 5);
}

abbrev lists : World
lists = (get_cranes env box 1 world).1

abbrev listed : CraneListResponse
listed = record { cranes = summarize tables crane ∷ []; truncated = false }

lists_crane : get_cranes env box 1 world ≡ (ok listed, lists)
unfolding get_cranes check_bounds ◌>>=◌ query
lists_crane = refl

get_cranes_ok_example :
    (is_valid box ≡ true)
    × (listed.cranes ≡ map (summarize tables) (take 1 (cranes_within env box tables)))
    × (false ≡ ltb 1 (length (cranes_within env box tables)))
get_cranes_ok_example = get_cranes_ok env box 1 world lists listed lists_crane

abbrev deletes : World
deletes = (delete_crane env 1 world).1

deletes_crane : delete_crane env 1 world ≡ (ok tt, deletes)
unfolding delete_crane delete_objects Storage.delete_photo Storage.get_s3_client
    Storage.get_r2_config Storage.connected Storage.checked ◌>>=◌ query ask execute
deletes_crane = refl

delete_crane_ok_example : IsDeleted 1 world deletes
delete_crane_ok_example = delete_crane_ok env 1 world deletes deletes_crane
