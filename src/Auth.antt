-- ===== src/Auth.antt =====
-- Admin accounts and bearer sessions (app/services/auth.py), and the dependency that checks them
-- (app/core/dependencies.py). `datetime.now(UTC)` is the clock of the database.
pub mod Password
pub mod Tokens
pub mod Sessions
pub mod Verdict
pub mod RoundTrip
use crane_tracker.Base.{
  ℕ, ◌+◌, ◌*◌, String, Bool, true, false, Option, none, some, ◌&&◌, ◌||◌, ◌==◌, ltb, leb, not,
  text_eq, if◌then◌else◌, find, any, delete,
}
use crane_tracker.Models.{AdminUser, AdminToken, Db}
use crane_tracker.Errors.{http}
use crane_tracker.Env.{Env, Crypto}
use crane_tracker.Database.{insert_token}
use crane_tracker.Exec.{Action, pure, raise, gets, query, or_raise, execute, draw, now, ◌>>=◌, ◌>>◌}
use crane_tracker.Errors.{ok}
use Password.{verify_password}
unfoldable pub use Password.{hash_password, verify_password, split_dollar}

abbrev pub seconds : ℕ → ℕ
seconds n = n * 1_000_000

-- `user.password_hash if user else DUMMY_PASSWORD_HASH`
abbrev pub stored_hash : String → Option AdminUser → String
stored_hash dummy none = dummy
stored_hash dummy (some user) = user.password_hash

-- `not valid or user is None or not user.is_active`, with the user where it is false
abbrev pub accepted : Bool → Option AdminUser → Option AdminUser
accepted valid none = none
accepted valid (some user) = if valid && user.is_active then some user else none

abbrev pub named : String → AdminUser → Bool
named username u = text_eq u.username username

-- `DELETE FROM admin_token WHERE expires_at <= now`
abbrev pub purge : ℕ → Db → Db
purge time d = record d { tokens = delete (λ t. leb t.expires_at time) d.tokens }

module _ (env : Env) (dummy_password_hash : String) where
  unfoldable pub open_session : AdminUser → Action String
  open_session user = do
    time ← gets now
    execute (λ d. ok (purge time d))
    token ← draw env.crypto.token_urlsafe
    execute (
        insert_token (record {
          token_hash = env.crypto.sha256 token;
          user_id = user.id;
          expires_at = time + seconds env.settings.admin_token_ttl_seconds;
        }))
    pure token

  unfoldable pub session_for : Option AdminUser → Action (Option String)
  unfolding open_session
  session_for none = pure none
  session_for (some user) = do token ← open_session user; pure (some token)

  unfoldable pub sign_in : String → String → Action (Option String)
  unfolding open_session session_for
  sign_in username password = do
    user ← query (λ d. find (named username) d.admins)
    session_for
        (accepted (verify_password env.crypto password (stored_hash dummy_password_hash user)) user)

-- a session that is good at this time
abbrev pub is_session : Crypto → String → ℕ → AdminToken → Bool
is_session crypto token time t = text_eq t.token_hash (crypto.sha256 token) && ltb time t.expires_at

-- the join of the two tables: an active user with a session
unfoldable pub admin_of : Crypto → String → ℕ → Db → Option AdminUser
admin_of crypto token time d =
    find
      (λ u. u.is_active && any (λ t. t.user_id == u.id && is_session crypto token time t) d.tokens)
      d.admins

unfoldable pub get_admin : Env → String → Action (Option AdminUser)
unfolding admin_of
get_admin env token = do time ← gets now; query (admin_of env.crypto token time)

unfoldable pub sign_out : Env → String → Action (Unit {0})
sign_out env token = execute λ d.
    ok (record d { tokens = delete (λ t. text_eq t.token_hash (env.crypto.sha256 token)) d.tokens })

-- `get_admin(…) if credentials else None`
unfoldable pub admin_for : Env → Option String → Action (Option AdminUser)
unfolding get_admin
admin_for env none = pure none
admin_for env (some token) = get_admin env token

unfoldable pub require_admin : Env → Option String → Action AdminUser
unfolding get_admin admin_for
require_admin env credentials = do
  user ← admin_for env credentials
  or_raise user (http 401 "Valid admin token required")
