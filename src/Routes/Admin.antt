-- ===== src/Routes/Admin.antt =====
-- The handlers of app/routes/auth.py.
use Prim.Native.String as Text
use crane_tracker.Base.{ℕ, String, Bool, Option, none, some, ◌&&◌, leb}
use crane_tracker.Errors.{http}
use crane_tracker.Env.{Env}
use crane_tracker.Exec.{Action, pure, or_raise, commit, request, ◌>>=◌, ◌>>◌}
use crane_tracker.Auth.{sign_in, sign_out, require_admin}

-- The lengths that `LoginRequest` asks of a name and a password.
abbrev pub is_login_request : String → String → Bool
is_login_request username password =
    leb 1 (Text.count username)
    && leb (Text.count username) 255
    && leb 1 (Text.count password)
    && leb (Text.count password) 1024

pub record TokenResponse : Type 0 where
  pub access_token : String
  pub token_type : String
  pub expires_in : ℕ

unfoldable pub login : Env → String → String → String → Action TokenResponse
login env dummy_password_hash username password = request do
  token ← sign_in env dummy_password_hash username password
  access_token ← or_raise token (http 401 "Invalid username or password")
  commit
  pure (record {
    access_token = access_token;
    token_type = "bearer";
    expires_in = env.settings.admin_token_ttl_seconds;
  })

-- `AdminDep` has refused a request with no credentials before the handler reads them
unfoldable pub sign_out_of : Env → Option String → Action (Unit {0})
sign_out_of env none = pure tt
sign_out_of env (some token) = sign_out env token

unfoldable pub logout : Env → Option String → Action (Unit {0})
unfolding sign_out_of
logout env credentials =
    request do require_admin env credentials; sign_out_of env credentials; commit
