-- ===== src/Auth/Sessions.antt =====
-- The life of a session in app/services/auth.py: signing in, the check of a token, signing out.
use crane_tracker.Base.{
  ℕ, ◌≡◌, ◌<◌, ◌+◌, ◌∙◌, ap, sym, String, Bool, true, Option, none, some, ◌&&◌, ◌==◌, arith, find,
  any, eq_iff,
}
use crane_tracker.Models.{AdminUser, Db}
use crane_tracker.Errors.{ok}
use crane_tracker.Env.{Env}
use crane_tracker.Exec.{World, fails, later, now, query, execute, ◌>>=◌}
use crane_tracker.Auth.{
  sign_in, session_for, get_admin, admin_of, is_session, sign_out, verify_password, seconds, purge,
  named, accepted, stored_hash,
}
use crane_tracker.Auth.Tokens.{
  signed_out, distinct_users, fresh, found_by_id, accepted-some, session_for-some, queried, Opens,
}

-- After a sign-out, the token opens no session at any time, on any tables whose users and sessions
-- are those that it left.
pub get_admin-sign_out :
    (env : Env) (token : String) (w w' v v' : World) (found : Option AdminUser)
    → sign_out env token w ≡ (ok tt, w')
    → v.working.admins ≡ w'.working.admins
    → v.working.tokens ≡ w'.working.tokens
    → get_admin env token v ≡ (ok found, v')
    → found ≡ none
unfolding sign_out get_admin admin_of ◌>>=◌ query execute
get_admin-sign_out env token w w' v v' found out users sessions asked =
    ground (arith, signed_out env.crypto token (now v) w.working.tokens w.working.admins)

signed_in :
    (env : Env) (dummy name password token : String) (w w' : World)
    → sign_in env dummy name password w ≡ (ok (some token), w')
    → (u : AdminUser) × (find (named name) w.working.admins ≡ some u)
      × (verify_password env.crypto password u.password_hash ≡ true)
      × (u.is_active ≡ true)
      × Opens env w token w'.working u
unfolding sign_in ◌>>=◌ query
signed_in env dummy name password token w w' h =
    let user : Option AdminUser = find (named name) w.working.admins in
    let valid : Bool = verify_password env.crypto password (stored_hash dummy user) in
    let asked : World = record w { faults = later w.faults } in
    let (u, some_u, opened) = session_for-some env dummy token (accepted valid user) asked w' (
      queried (fails w.faults) user (some token) asked w'
        (λ o.
          session_for env dummy
            (accepted (verify_password env.crypto password (stored_hash dummy o)) o))
        h) in
    let (who, right, active) = accepted-some valid user u some_u in
    (
      u,
      who,
      ap (λ o. verify_password env.crypto password (stored_hash dummy o)) (sym who) ∙ right,
      active,
      record { admins = opened.admins; tokens = opened.tokens; fresh_hash = opened.fresh_hash },
    )

only_session :
    (env : Env) (token : String) (w : World) (d : Db) (u : AdminUser) (time id : ℕ)
    → Opens env w token d u
    → time < now w + seconds env.settings.admin_token_ttl_seconds
    → any (λ t. t.user_id == id && is_session env.crypto token time t) d.tokens ≡ (u.id == id)
only_session env token w d u time id opened early = rw opened.tokens (
    ground (
      arith,
      fresh env.crypto token time id (purge (now w) w.working).tokens opened.fresh_hash,
      eq_iff (env.crypto.sha256 token) (env.crypto.sha256 token),
    ))

get_admin_lem :
    (env : Env) (token : String) (v v' : World) (found : Option AdminUser)
    → get_admin env token v ≡ (ok found, v')
    → found ≡ admin_of env.crypto token (now v) v.working
unfolding get_admin ◌>>=◌ query
get_admin_lem env token v v' found h = ground arith

found_again :
    (env : Env) (name token : String) (w : World) (d d' : Db) (u : AdminUser) (time : ℕ)
    → distinct_users w.working.admins ≡ true
    → find (named name) w.working.admins ≡ some u
    → u.is_active ≡ true
    → Opens env w token d u
    → d'.admins ≡ d.admins
    → d'.tokens ≡ d.tokens
    → time < now w + seconds env.settings.admin_token_ttl_seconds
    → admin_of env.crypto token time d' ≡ some u
unfolding admin_of
found_again env name token w d d' u time apart who active opened users sessions early =
    rw (users, sessions, opened.admins)
      (found_by_id name
        (λ id. any (λ t. t.user_id == id && is_session env.crypto token time t) d.tokens)
        w.working.admins u apart who active
        (λ id. only_session env token w d u time id opened early))

-- If a sign-in opens a session and the ids of the users are distinct, then on any tables with the
-- users and sessions that it left the token is that of the user with this name, until it expires;
-- the user is active and the password was verified.
pub get_admin-sign_in :
    (env : Env) (dummy name password token : String) (w w' v v' : World) (found : Option AdminUser)
    → distinct_users w.working.admins ≡ true
    → sign_in env dummy name password w ≡ (ok (some token), w')
    → v.working.admins ≡ w'.working.admins
    → v.working.tokens ≡ w'.working.tokens
    → now v < now w + seconds env.settings.admin_token_ttl_seconds
    → get_admin env token v ≡ (ok found, v')
    → (u : AdminUser) × (find (named name) w.working.admins ≡ some u)
      × (verify_password env.crypto password u.password_hash ≡ true)
      × (u.is_active ≡ true)
      × (found ≡ some u)
get_admin-sign_in env dummy name password token w w' v v' found apart signed users sessions early
      asked =
    let (u, who, valid, active, opened) = signed_in env dummy name password token w w' signed in
    (
      u,
      who,
      valid,
      active,
      get_admin_lem env token v v' found asked
          ∙ found_again env name token w w'.working v.working u (now v) apart who active opened
              users sessions early,
    )
