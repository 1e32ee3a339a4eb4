-- ===== src/Auth/Verdict.antt =====
-- To whom a sign-in opens a session (`sign_in` of app/services/auth.py).
use crane_tracker.Base.{
  ◌≡◌, ◌⊎◌, inl, inr, String, Bool, true, false, Option, none, some, ◌&&◌, find, arith,
  if◌then◌else◌,
}
use crane_tracker.Models.{AdminUser}
use crane_tracker.Errors.{Result, ok, err}
use crane_tracker.Env.{Env, Crypto}
use crane_tracker.Exec.{World, continue, fails, later, pure, query, ◌>>=◌}
use crane_tracker.Auth.{
  sign_in, session_for, open_session, verify_password, named, accepted, stored_hash,
}
use crane_tracker.Auth.Tokens.{queried}

-- Whether the user that was found may sign in with this password.
abbrev pub admits : Crypto → String → Option AdminUser → Bool
admits crypto password none = false
admits crypto password (some u) = verify_password crypto password u.password_hash && u.is_active

abbrev pub is_token : Option String → Bool
is_token none = false
is_token (some _) = true

-- A token is the answer to one who may sign in; to any other there is none, and the tables are as they were.
pub record IsVerdict (admitted : Bool) (w : World) (answer : Option String) (w' : World)
    : Type 0 where
  pub token : is_token answer ≡ admitted
  pub kept : (is_token answer ≡ true) ⊎ (w'.working ≡ w.working)

module _ (env : Env) (dummy : String) where
  opened :
      (r : Result String × World) (answer : Option String) (w' : World)
      → continue r (λ t. pure (some t)) ≡ (ok answer, w')
      → is_token answer ≡ true
  unfolding pure
  opened (ok t, w) answer w' h = ground arith
  opened (err e, w) answer w' h = cc

  refused :
      (answer : Option String) (w w' : World)
      → session_for env dummy none w ≡ (ok answer, w')
      → IsVerdict false w answer w'
  unfolding session_for pure
  refused answer w w' h = record { token = ground arith; kept = inr (ground arith) }

  admitted :
      (u : AdminUser) (answer : Option String) (w w' : World)
      → session_for env dummy (some u) w ≡ (ok answer, w')
      → IsVerdict true w answer w'
  unfolding session_for ◌>>=◌
  admitted u answer w w' h =
      let token = opened (open_session env dummy u w) answer w' h in
      record { token = token; kept = inl token }

  granted :
      (b : Bool) (u : AdminUser) (answer : Option String) (w w' : World)
      → session_for env dummy (if b then some u else none) w ≡ (ok answer, w')
      → IsVerdict b w answer w'
  granted true u answer w w' h = admitted u answer w w' h
  granted false u answer w w' h = refused answer w w' h

  decided :
      (user : Option AdminUser) (password : String) (answer : Option String) (w w' : World)
      → session_for env dummy
          (accepted (verify_password env.crypto password (stored_hash dummy user)) user)
          w
        ≡ (ok answer, w')
      → IsVerdict (admits env.crypto password user) w answer w'
  decided none password answer w w' h = refused answer w w' h
  decided (some u) password answer w w' h =
      granted (verify_password env.crypto password u.password_hash && u.is_active) u answer w w' h

  -- If a sign-in returns, then it returns a token exactly if there is a user with this name who is
  -- active and whose stored hash verifies the password, whatever the hash is that stands in for an
  -- unknown user; if it returns none, the tables are as they were.
  pub sign_in_lem :
      (name password : String) (answer : Option String) (w w' : World)
      → sign_in env dummy name password w ≡ (ok answer, w')
      → IsVerdict (admits env.crypto password (find (named name) w.working.admins)) w answer w'
  unfolding sign_in ◌>>=◌ query
  sign_in_lem name password answer w w' h =
      let user : Option AdminUser = find (named name) w.working.admins in
      let asked : World = record w { faults = later w.faults } in
      let verdict = decided user password answer asked w' (
        queried (fails w.faults) user answer asked w'
          (λ o.
            session_for env dummy
              (accepted (verify_password env.crypto password (stored_hash dummy o)) o))
          h) in
      record { token = verdict.token; kept = verdict.kept }
