-- ===== src/Account/Refused.antt =====
-- The other ends of the command of app/admin.py.
use crane_tracker.Base.{
  suc, ◌≡◌, refl, ◌∙◌, String, Bool, true, false, Option, none, some, ◌⊎◌, inl, inr, find, arith,
}
use crane_tracker.Models.{AdminUser, Db}
use crane_tracker.Errors.{Result, ok, err, unexpected}
use crane_tracker.Env.{Env}
use crane_tracker.Database.{insert_admin}
use crane_tracker.Database.Sessions.{session_scope, session_scope_ends}
use crane_tracker.Exec.{
  World, written, ended, delivered, fails, later, continue, raise, pure, query, execute, commit,
  draw, or_raise, ◌>>=◌, ◌>>◌,
}
use crane_tracker.Auth.{named, hash_password}
use crane_tracker.Account.{Exit, add_admin, provision, main}
use crane_tracker.Account.Exit.{created}

module _ (env : Env) where
  -- an outcome after which the account is there, or nothing is committed
  abbrev Made : World → Result Exit × World → Type 0
  Made w r = (r.0 ≡ ok created) ⊎ (r.1.committed ≡ w.committed)

  ended-Made : (b : Bool) (w : World) → Made w (continue (ended b w) (λ _. pure created))
  unfolding pure
  ended-Made true w = inr refl
  ended-Made false w = inl refl

  written-Made :
      (r : Result Db) (w : World) → Made w (continue (written r w) (λ _. commit >> pure created))
  unfolding ◌>>=◌ commit
  written-Made (err e) w = inr refl
  written-Made (ok d) w =
      ended-Made (fails w.faults) (record w { working = d; faults = later w.faults })

  insert-Made :
      (u : AdminUser) (w : World)
      → Made w ((execute (insert_admin u) >> (commit >> pure created)) w)
  unfolding ◌>>=◌ execute
  insert-Made u w =
      written-Made (delivered (fails w.faults) (insert_admin u w.working))
        (record w { faults = later w.faults })

  hashed-Made :
      (username : String) (stored : Option String) (w : World)
      → Made w (
          (do
            password_hash ← or_raise stored (unexpected "scrypt")
            id ← draw env.uuid7
            execute (
                insert_admin (record {
                  id = id;
                  username = username;
                  password_hash = password_hash;
                  is_active = true;
                }))
            commit
            pure created)
            w)
  unfolding ◌>>=◌ or_raise raise pure draw
  hashed-Made username none w = inr refl
  hashed-Made username (some stored) w =
      insert-Made
        (record {
          id = env.uuid7 w.drawn;
          username = username;
          password_hash = stored;
          is_active = true;
        })
        (record w { drawn = suc w.drawn })

  add_admin-Made :
      (username password : String) (existing : Option AdminUser) (w : World)
      → Made w (add_admin env username password existing w)
  unfolding add_admin pure ◌>>=◌ draw
  add_admin-Made username password (some u) w = inr refl
  add_admin-Made username password none w =
      hashed-Made username (hash_password env.crypto password (env.crypto.token_hex w.drawn))
        (record w { drawn = suc w.drawn })

  asked-Made :
      (username password : String) (r : Result (Option AdminUser)) (w : World)
      → Made w (continue (r, w) (add_admin env username password))
  asked-Made username password (ok existing) w = add_admin-Made username password existing w
  asked-Made username password (err e) w = inr refl

  provision-Made :
      (username password : String) (w : World) → Made w (provision env username password w)
  unfolding provision ◌>>=◌ query
  provision-Made username password w =
      asked-Made username password
        (delivered (fails w.faults) (ok (find (named username) w.working.admins)))
        (record w { faults = later w.faults })

  scope-Made :
      (username password : String) (w : World)
      → Made w (session_scope env.settings "webserver" (provision env username password) w)
  scope-Made username password w =
      elim (session_scope_ends env.settings "webserver" (provision env username password) w) [
        | inr (not_web, _, _) ↦ cc
        | inl (same, kept, _) ↦ elim (provision-Made username password w) [
          | inl made ↦ inl (same ∙ made)
          | inr unmade ↦ inr (kept ∙ unmade)
        ]
      ]

  -- Unless the command ends with the account created, it leaves the committed tables as they were,
  -- whichever statements fail.
  pub main_refuses :
      (strip : String → String) (argument password confirmation : String) (w : World)
      → ((main env strip argument password confirmation w).0 ≡ ok created)
        ⊎ ((main env strip argument password confirmation w).1.committed ≡ w.committed)
  unfolding main pure
  main_refuses strip argument password confirmation w =
      let inside = scope-Made (strip argument) password w in ground arith
