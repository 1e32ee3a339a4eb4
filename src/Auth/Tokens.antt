-- ===== src/Auth/Tokens.antt =====
-- The rows of the users and of their sessions, and what `sign_in` and `sign_out` of
-- app/services/auth.py do to them.
use crane_tracker.Base.{
  ℕ, ◌≡◌, ◌+◌, refl, String, Bool, true, false, Option, none, some, List, [], ◌∷◌, ◌&&◌, ◌==◌,
  arith, not, find, any, delete, text_eq,
}
use crane_tracker.Models.{AdminUser, AdminToken, Db}
use crane_tracker.Errors.{Result, ok, err}
use crane_tracker.Env.{Env, Crypto}
use crane_tracker.Database.{insert_token}
use crane_tracker.Exec.{Action, World, continue, delivered, now, pure, execute, draw, ◌>>=◌}
use crane_tracker.Auth.{session_for, open_session, is_session, seconds, purge, named, accepted}

pub no_session :
    (crypto : Crypto) (token : String) (time id : ℕ) (ts : List AdminToken)
    → any
        (λ t. t.user_id == id && is_session crypto token time t)
        (delete (λ t. text_eq t.token_hash (crypto.sha256 token)) ts)
      ≡ false
no_session crypto token time id [] = refl
no_session crypto token time id (t ∷ ts) = ground (arith, no_session crypto token time id ts)

pub signed_out :
    (crypto : Crypto) (token : String) (time : ℕ) (ts : List AdminToken) (users : List AdminUser)
    → find
        (λ u.
          u.is_active
          && any
              (λ t. t.user_id == u.id && is_session crypto token time t)
              (delete (λ t. text_eq t.token_hash (crypto.sha256 token)) ts))
        users
      ≡ none
signed_out crypto token time ts [] = refl
signed_out crypto token time ts (u ∷ users) =
    ground (arith, no_session crypto token time u.id ts, signed_out crypto token time ts users)

-- The ids of the users are distinct, as their primary key says.
abbrev pub distinct_users : List AdminUser → Bool
distinct_users [] = true
distinct_users (u ∷ us) = not (any (λ v. v.id == u.id) us) && distinct_users us

pub find-named :
    (name : String) (users : List AdminUser) (u : AdminUser)
    → find (named name) users ≡ some u
    → any (λ v. v.id == u.id) users ≡ true
find-named name [] u h = cc
find-named name (v ∷ users) u h = ground (arith, find-named name users u)

-- the one session of the token
abbrev pub session_of : Env → World → String → AdminUser → AdminToken
session_of env w token u = record {
  token_hash = env.crypto.sha256 token;
  user_id = u.id;
  expires_at = now w + seconds env.settings.admin_token_ttl_seconds;
}

pub fresh :
    (crypto : Crypto) (token : String) (time id : ℕ) (ts : List AdminToken)
    → any (λ t. text_eq t.token_hash (crypto.sha256 token)) ts ≡ false
    → any (λ t. t.user_id == id && is_session crypto token time t) ts ≡ false
fresh crypto token time id [] h = refl
fresh crypto token time id (t ∷ ts) h = ground (arith, fresh crypto token time id ts)

pub found_by_id :
    (name : String) (is_of : ℕ → Bool) (users : List AdminUser) (u : AdminUser)
    → distinct_users users ≡ true
    → find (named name) users ≡ some u
    → u.is_active ≡ true
    → ((id : ℕ) → is_of id ≡ (u.id == id))
    → find (λ x. x.is_active && is_of x.id) users ≡ some u
found_by_id name is_of [] u apart h active only = cc
found_by_id name is_of (x ∷ users) u apart h active only =
    ground (arith, only x.id, found_by_id name is_of users u, find-named name users u)

pub accepted-some :
    (valid : Bool) (user : Option AdminUser) (u : AdminUser)
    → accepted valid user ≡ some u
    → (user ≡ some u) × (valid ≡ true) × (u.is_active ≡ true)
accepted-some valid none u h = cc
accepted-some valid (some v) u h = ground arith

-- What a sign-in that opens a session has checked and stored.
pub record Opens (env : Env) (w : World) (token : String) (d : Db) (u : AdminUser) : Type 0 where
  pub admins : d.admins ≡ w.working.admins
  pub tokens : d.tokens ≡ session_of env w token u ∷ (purge (now w) w.working).tokens
  pub fresh_hash :
      any (λ t. text_eq t.token_hash (env.crypto.sha256 token)) (purge (now w) w.working).tokens
      ≡ false

pub session_opened :
    (env : Env) (dummy token : String) (u : AdminUser) (w w' : World)
    → open_session env dummy u w ≡ (ok token, w')
    → Opens env w token w'.working u
unfolding open_session ◌>>=◌ execute draw insert_token
session_opened env dummy token u w w' h = record {
  admins = ground arith;
  tokens = ground arith;
  fresh_hash = ground arith;
}

pub returned :
    (r : Result String × World) (token : String) (w' : World)
    → continue r (λ t. pure (some t)) ≡ (ok (some token), w')
    → r ≡ (ok token, w')
unfolding pure
returned (ok t, w) token w' h = ground arith
returned (err e, w) token w' h = cc

pub session_for-some :
    (env : Env) (dummy token : String) (user : Option AdminUser) (w w' : World)
    → session_for env dummy user w ≡ (ok (some token), w')
    → (u : AdminUser) × (user ≡ some u) × Opens env w token w'.working u
unfolding session_for ◌>>=◌
session_for-some env dummy token none w w' h = cc
session_for-some env dummy token (some u) w w' h = (
  u,
  refl,
  session_opened env dummy token u w w' (returned (open_session env dummy u w) token w' h),
)

pub queried :
    {A B : Type 0} (b : Bool) (a : A) (x : B) (w w' : World) (f : A → Action B)
    → continue (delivered b (ok a), w) f ≡ (ok x, w')
    → f a w ≡ (ok x, w')
queried true a x w w' f h = cc
queried false a x w w' f h = h
