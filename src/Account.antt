-- ===== src/Account.antt =====
-- The command that creates an admin account (app/admin.py).
pub mod Created
pub mod Refused
use Prim.Native.String as Text
use crane_tracker.Base.{
  ℕ, suc, ◌≡◌, refl, sym, ap, subst, ◌∙◌, ◌≤◌, String, Bool, true, false, not, Option, none, some,
  ◌∷◌, ◌&&◌, ◌||◌, ◌⊎◌, inl, inr, find, ltb, leb, text_eq, eq_iff, if◌then◌else◌, Option-cases,
  arith,
}
use crane_tracker.Models.{AdminUser, Db}
use crane_tracker.Errors.{Result, ok, err, unexpected}
use crane_tracker.Env.{Env}
use crane_tracker.Settings.{is_set}
use crane_tracker.Database.{insert_admin}
use crane_tracker.Database.Sessions.{session_scope, session_scope_ends}
use crane_tracker.Exec.{
  Action, World, written, ended, delivered, fails, later, continue, raise, pure, query, execute,
  commit, draw, or_raise, ◌>>=◌, ◌>>◌,
}
use crane_tracker.Exec.Outcome.{bound, query-world}
use crane_tracker.Auth.{named, accepted, stored_hash, hash_password, verify_password}
use crane_tracker.Auth.RoundTrip.{is_plain, verify_password-hash_password}

-- How the command ends: `parser.error` exits with a text, also from within the session.
pub data Exit : Type 0 where
  created : Exit
  error : String → Exit

module _ (env : Env) where
  unfoldable pub add_admin : String → String → Option AdminUser → Action Exit
  add_admin username password (some _) = pure (error "Username already exists")
  add_admin username password none = do
    salt ← draw env.crypto.token_hex
    password_hash ← or_raise (hash_password env.crypto password salt) (unexpected "scrypt")
    id ← draw env.uuid7
    execute (
        insert_admin (record {
          id = id;
          username = username;
          password_hash = password_hash;
          is_active = true;
        }))
    commit
    pure created

  unfoldable pub provision : String → String → Action Exit
  unfolding add_admin
  provision username password = do
    existing ← query (λ d. find (named username) d.admins)
    add_admin username password existing

  -- `strip` is `str.strip`.
  unfoldable pub main : (String → String) → String → String → String → Action Exit
  unfolding provision
  main strip argument password confirmation =
      let username = strip argument in
      if not (is_set (some username)) || ltb 255 (Text.count username)
      then pure (error "Username must contain 1 to 255 characters")
      else if not (leb 15 (Text.count password) && leb (Text.count password) 1024)
      then pure (error "Password must contain 15 to 1024 characters")
      else if not (text_eq password confirmation)
      then pure (error "Passwords do not match")
      else session_scope env.settings "webserver" (provision username password)
