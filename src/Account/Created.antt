-- ===== src/Account/Created.antt =====
-- An account that the command of app/admin.py has created.
use Prim.Native.String as Text
use crane_tracker.Base.{
  ℕ, suc, ◌≡◌, refl, sym, ap, subst, ◌∙◌, ◌≤◌, String, true, Option, none, some, ◌∷◌, inl, inr,
  find, eq_iff, Option-cases, arith,
}
use text.Mathlib.TextLemmas.{length-cons}
use crane_tracker.Routes.Admin.{is_login_request}
use crane_tracker.Models.{AdminUser}
use crane_tracker.Errors.{ok}
use crane_tracker.Env.{Env}
use crane_tracker.Settings.{is_set}
use crane_tracker.Database.{insert_admin}
use crane_tracker.Database.Sessions.{session_scope, session_scope_ends}
use crane_tracker.Exec.{World, raise, pure, query, execute, commit, draw, or_raise, ◌>>=◌}
use crane_tracker.Exec.Outcome.{bound, query-world}
use crane_tracker.Auth.{named, accepted, stored_hash, hash_password, verify_password}
use crane_tracker.Auth.RoundTrip.{is_plain, verify_password-hash_password}
use crane_tracker.Account.{add_admin, provision, main}
use crane_tracker.Account.Exit.{created}

module _ (env : Env) where
  abbrev new_admin : String → String → World → AdminUser
  new_admin username password_hash w = record {
    id = env.uuid7 (suc w.drawn);
    username = username;
    password_hash = password_hash;
    is_active = true;
  }

  -- the row that the command adds
  abbrev Adds : String → String → World → World → Type 0
  Adds username password w w' =
      (password_hash : String) × (hash_password env.crypto password (env.crypto.token_hex w.drawn)
        ≡ some password_hash)
      × (w'.committed
          ≡ record w.working { admins = new_admin username password_hash w ∷ w.working.admins })

  add_admin-created :
      (username password : String) (existing : Option AdminUser) (w w' : World)
      → add_admin env username password existing w ≡ (ok created, w')
      → (existing ≡ none) × Adds username password w w'
  unfolding add_admin pure ◌>>=◌ draw or_raise raise execute commit insert_admin
  add_admin-created username password (some u) w w' h = cc
  add_admin-created username password none w w' h =
      elim (Option-cases (hash_password env.crypto password (env.crypto.token_hex w.drawn))) [
        | inl raised ↦ ground arith
        | inr (stored, hashed) ↦ (refl, (stored, hashed, ground arith))
      ]

  provision-created :
      (username password : String) (w w' : World)
      → provision env username password w ≡ (ok created, w')
      → (find (named username) w.working.admins ≡ none) × Adds username password w w'
  unfolding provision ◌>>=◌
  provision-created username password w w' h =
      let (existing, w₁, asked, rest) =
        bound (query (λ d. find (named username) d.admins) w) (add_admin env username password)
          created w' h in
      let (found, next) = query-world (λ d. find (named username) d.admins) existing w w₁ asked in
      let (absent, adds) = add_admin-created username password existing w₁ w' rest in
      (sym found ∙ absent, subst (λ v. Adds username password v w') next adds)

  scoped :
      (username password : String) (w w' : World)
      → session_scope env.settings "webserver" (provision env username password) w
        ≡ (ok created, w')
      → (find (named username) w.working.admins ≡ none) × Adds username password w w'
  scoped username password w w' h =
      let inside = provision env username password in
      elim (session_scope_ends env.settings "webserver" inside w) [
        | inr (not_web, _, _) ↦ cc
        | inl (same, kept, _) ↦
            let made : (inside w).0 ≡ ok created = sym same ∙ ap (λ r. r.0) h in
            let (absent, (stored, hashed, row)) =
              provision-created username password w (inside w).1
                (ap (λ r. (r, (inside w).1)) made) in
            (absent, (stored, hashed, ap (λ r. r.1.committed) (sym h) ∙ kept ∙ row))
      ]

  -- what the command has checked before it opens a session
  main-created :
      (strip : String → String) (argument password confirmation : String) (w w' : World)
      → main env strip argument password confirmation w ≡ (ok created, w')
      → (is_set (some (strip argument)) ≡ true)
        × (Text.count (strip argument) ≤ 255)
        × (15 ≤ Text.count password)
        × (Text.count password ≤ 1024)
        × (session_scope env.settings "webserver" (provision env (strip argument) password) w
            ≡ (ok created, w'))
  unfolding main pure
  main-created strip argument password confirmation w w' h = ground arith

  is_set-count : (name : String) → is_set (some name) ≡ true → 1 ≤ Text.count name
  is_set-count Text.[] h = cc
  is_set-count (Text.◌∷◌ c s) h = omega (arith, length-cons c s)

  allowed :
      (name password : String)
      → 1 ≤ Text.count name
      → Text.count name ≤ 255
      → 15 ≤ Text.count password
      → Text.count password ≤ 1024
      → is_login_request name password ≡ true
  allowed name password some_name short long_enough not_too_long = ground arith

  -- If the salts and the digests of scrypt have no `$` in them, as hexadecimal texts have none, and
  -- the command creates an account, then no account had the name, which is the argument without its
  -- outer spaces; the password has at least 15 characters; a login request may have this name and
  -- password; and the one new row is an active user with this name, whom a sign-in with
  -- this name and password accepts.
  pub main-accepted :
      (strip : String → String) (argument password confirmation dummy : String) (w w' : World)
      → ((n : ℕ) → is_plain (env.crypto.token_hex n) ≡ true)
      → ((p s d : String) → env.crypto.scrypt p s ≡ some d → is_plain d ≡ true)
      → main env strip argument password confirmation w ≡ (ok created, w')
      → (user : AdminUser) × (w'.committed ≡ record w.working { admins = user ∷ w.working.admins })
        × (find (named (strip argument)) w.working.admins ≡ none)
        × (15 ≤ Text.count password)
        × (is_login_request (strip argument) password ≡ true)
        × (find (named (strip argument)) w'.committed.admins ≡ some user)
        × (accepted
              (verify_password env.crypto password (stored_hash dummy (some user)))
              (some user)
            ≡ some user)
  main-accepted strip argument password confirmation dummy w w' plain hex h =
      let (set, short, long_enough, not_too_long, inside) =
        main-created strip argument password confirmation w w' h in
      let (absent, (stored, hashed, row)) = scoped (strip argument) password w w' inside in
      let user = new_admin (strip argument) stored w in
      let same = (eq_iff (strip argument) (strip argument)).1 refl in
      let right =
        verify_password-hash_password env.crypto password (env.crypto.token_hex w.drawn) stored
          (plain w.drawn) hex hashed in
      (
        user,
        row,
        absent,
        long_enough,
        allowed (strip argument) password (is_set-count (strip argument) set) short long_enough
            not_too_long,
        rw (row, same) refl,
        rw right refl,
      )
