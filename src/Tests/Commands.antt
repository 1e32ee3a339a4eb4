-- ===== src/Tests/Commands.antt =====
-- The theorems on the account command and on the scope of a session.
use Prim.Native.String as Text
use crane_tracker.Base.{String, ◌≡◌, ◌≤◌, refl, true, none, some, ◌∷◌, ◌⊎◌, find, subst}
use crane_tracker.Models.{AdminUser}
use crane_tracker.Errors.{ok}
use crane_tracker.Exec.{World, ◌>>=◌, query, execute, draw, commit, lift, request, rescue, rollback}
use crane_tracker.Database.{insert_admin}
use crane_tracker.Database.Sessions.{session_scope, sessionmaker_for, rolled_back}
use crane_tracker.Auth.{hash_password, named, accepted, stored_hash, verify_password}
use crane_tracker.Auth.RoundTrip.{is_plain, some-injective}
use crane_tracker.Routes.Admin.{is_login_request}
use crane_tracker.Account.{main, provision, add_admin}
use crane_tracker.Account.Exit.{created}
use crane_tracker.Account.Created.{main-accepted}
use crane_tracker.Account.Refused.{main_refuses}
use crane_tracker.Tests.Values.{env, world}

-- `grace` gets an account.
abbrev password : String
password = "a long pass phrase"

abbrev after : World
after = (main env (λ s. s) "grace" password password world).1

creates : main env (λ s. s) "grace" password password world ≡ (ok created, after)
unfolding main provision add_admin session_scope sessionmaker_for rolled_back hash_password ◌>>=◌
    query execute draw commit lift request rescue rollback insert_admin
creates = refl

digests : (p s d : String) → env.crypto.scrypt p s ≡ some d → is_plain d ≡ true
digests p s d h = subst (λ t. is_plain t ≡ true) (some-injective h) refl

main-accepted_example :
    (user : AdminUser) × (after.committed
      ≡ record world.working { admins = user ∷ world.working.admins })
    × (find (named "grace") world.working.admins ≡ none)
    × (15 ≤ Text.count password)
    × (is_login_request "grace" password ≡ true)
    × (find (named "grace") after.committed.admins ≡ some user)
    × (accepted (verify_password env.crypto password (stored_hash "" (some user))) (some user)
        ≡ some user)
main-accepted_example =
    main-accepted env (λ s. s) "grace" password password "" world after (λ n. refl) digests creates

-- `ada` has an account already.
main_refuses_example :
    ((main env (λ s. s) "ada" password password world).0 ≡ ok created)
    ⊎ ((main env (λ s. s) "ada" password password world).1.committed ≡ world.committed)
main_refuses_example = main_refuses env (λ s. s) "ada" password password world
