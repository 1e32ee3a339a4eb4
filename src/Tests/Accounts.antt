-- ===== src/Tests/Accounts.antt =====
-- The theorems on passwords and sessions.
use crane_tracker.Base.{String, ◌≡◌, refl, arith, true, Option, none, some, find, subst}
use crane_tracker.Models.{AdminUser}
use crane_tracker.Errors.{ok}
use crane_tracker.Exec.{World, ◌>>=◌, query, execute, draw}
use crane_tracker.Database.{insert_token}
use crane_tracker.Auth.{
  sign_in, open_session, session_for, sign_out, get_admin, admin_of, named, verify_password,
  hash_password, split_dollar,
}
use crane_tracker.Auth.Password.{push}
use crane_tracker.Auth.Sessions.{get_admin-sign_in, get_admin-sign_out}
use crane_tracker.Auth.Verdict.{IsVerdict, admits, sign_in_lem}
use crane_tracker.Auth.RoundTrip.{is_plain, some-injective, verify_password-hash_password}
use crane_tracker.Tests.Values.{env, admin, world, world_at}

hashes : hash_password env.crypto "secret" "5a17" ≡ some "scrypt$5a17$c0ffee"
unfolding hash_password
hashes = refl

digests_are_plain : (p s d : String) → env.crypto.scrypt p s ≡ some d → is_plain d ≡ true
digests_are_plain p s d h = subst (λ t. is_plain t ≡ true) (some-injective h) refl

verify_password-hash_password_example :
    verify_password env.crypto "secret" "scrypt$5a17$c0ffee" ≡ true
verify_password-hash_password_example =
    verify_password-hash_password env.crypto "secret" "5a17" "scrypt$5a17$c0ffee" refl
      digests_are_plain hashes

abbrev signs_in : World
signs_in = (sign_in env "" "ada" "secret" world).1

signed_in : sign_in env "" "ada" "secret" world ≡ (ok (some "token"), signs_in)
unfolding sign_in session_for open_session verify_password split_dollar push ◌>>=◌ query execute
    draw insert_token
signed_in = refl

-- one second later
abbrev visit : World
visit = world_at 1_000_050 signs_in.working

visited : get_admin env "token" visit ≡ (ok (some admin), (get_admin env "token" visit).1)
unfolding get_admin admin_of ◌>>=◌ query sign_in session_for open_session verify_password
    split_dollar push execute draw insert_token
visited = refl

get_admin-sign_in_example :
    (u : AdminUser) × (find (named "ada") world.working.admins ≡ some u)
    × (verify_password env.crypto "secret" u.password_hash ≡ true)
    × (u.is_active ≡ true)
    × (some admin ≡ some u)
get_admin-sign_in_example =
    get_admin-sign_in env "" "ada" "secret" "token" world signs_in visit
      (get_admin env "token" visit).1 (some admin) refl signed_in refl refl (omega arith) visited

abbrev signs_out : World
signs_out = (sign_out env "token" visit).1

signed_out : sign_out env "token" visit ≡ (ok tt, signs_out)
unfolding sign_out execute
signed_out = refl

abbrev visit_again : World
visit_again = world_at 2_000_050 signs_out.working

turned_away : get_admin env "token" visit_again ≡ (ok none, (get_admin env "token" visit_again).1)
unfolding get_admin admin_of ◌>>=◌ query sign_in session_for open_session verify_password
    split_dollar push execute draw insert_token sign_out
turned_away = refl

abbrev nobody : Option AdminUser
nobody = none

get_admin-sign_out_example : nobody ≡ none
get_admin-sign_out_example =
    get_admin-sign_out env "token" visit signs_out visit_again (get_admin env "token" visit_again).1
      none signed_out refl refl turned_away

-- The hash that stands in for an unknown user verifies the password, and nobody is signed in.
abbrev intruded : World
intruded = (sign_in env "scrypt$5a17$c0ffee" "eve" "secret" world).1

intruder : sign_in env "scrypt$5a17$c0ffee" "eve" "secret" world ≡ (ok none, intruded)
unfolding sign_in session_for verify_password split_dollar push ◌>>=◌ query
intruder = refl

sign_in_lem_example :
    IsVerdict
      (admits env.crypto "secret" (find (named "eve") world.working.admins))
      world
      none
      intruded
sign_in_lem_example =
    sign_in_lem env "scrypt$5a17$c0ffee" "eve" "secret" none world intruded intruder
