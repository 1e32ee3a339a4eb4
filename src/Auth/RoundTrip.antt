-- ===== src/Auth/RoundTrip.antt =====
-- A password against its own hash, in app/services/auth.py.
use Prim.Native.String as Text
use Prim.Native.String.{◌++◌}
use Prim.Native.Char.{code}
use crane_tracker.Base.{
  String, ◌≡◌, refl, ap, ◌∙◌, subst, Bool, true, Option, none, some, [], ◌∷◌, ◌==◌, ◌&&◌, eq_iff,
  not, arith,
}
use crane_tracker.Env.{Crypto}
use text.Mathlib.TextLemmas.{cons-append, nil-append, append_assoc}
use crane_tracker.Auth.Password.{encoded, check_parts, split_dollar, hash_password, verify_password}

-- no `$` in the text
abbrev pub is_plain : String → Bool
is_plain Text.[] = true
is_plain (Text.◌∷◌ c s) = not (code c == b'$') && is_plain s

split-plain : (s : String) → is_plain s ≡ true → split_dollar s ≡ s ∷ []
unfolding split_dollar
split-plain Text.[] h = refl
split-plain (Text.◌∷◌ c s) h = ground (arith, split-plain s)

dollar-append : (s : String) → "$" ++ s ≡ Text.◌∷◌ "$" s
dollar-append s = cons-append "$" "" s ∙ ap (Text.◌∷◌ "$") (nil-append s)

-- a plain part, and what comes behind the `$` after it
split-append :
    (s t : String) → is_plain s ≡ true → split_dollar (s ++ Text.◌∷◌ "$" t) ≡ s ∷ split_dollar t
unfolding split_dollar
split-append Text.[] t h = ap split_dollar (nil-append (Text.◌∷◌ "$" t))
split-append (Text.◌∷◌ c s) t h =
    ap split_dollar (cons-append c s (Text.◌∷◌ "$" t)) ∙ ground (arith, split-append s t)

split-encoded :
    (salt digest : String)
    → is_plain salt ≡ true
    → is_plain digest ≡ true
    → split_dollar (encoded salt digest) ≡ "scrypt" ∷ salt ∷ digest ∷ []
split-encoded salt digest h k =
    ap split_dollar (
      append_assoc "scrypt" "$" (salt ++ ("$" ++ digest))
      ∙ ap (λ t. "scrypt" ++ t) (dollar-append (salt ++ ("$" ++ digest))))
    ∙ split-append "scrypt" (salt ++ ("$" ++ digest)) refl
    ∙ ap (λ ps. "scrypt" ∷ ps)
        (ap (λ t. split_dollar (salt ++ t)) (dollar-append digest)
          ∙ split-append salt digest h
          ∙ ap (λ ps. salt ∷ ps) (split-plain digest k))

matches :
    (crypto : Crypto) (password salt digest : String)
    → crypto.scrypt password salt ≡ some digest
    → check_parts crypto password ("scrypt" ∷ salt ∷ digest ∷ []) ≡ true
matches crypto password salt digest e = rw e (ground (arith, eq_iff digest digest))

pub some-injective : {a b : String} → some a ≡ some b → a ≡ b
some-injective h = cc

hashed :
    (crypto : Crypto) (password salt stored : String) (o : Option String)
    → crypto.scrypt password salt ≡ o
    → is_plain salt ≡ true
    → ((d : String) → o ≡ some d → is_plain d ≡ true)
    → elim o [ none ↦ none | some digest ↦ some (encoded salt digest) ] ≡ some stored
    → check_parts crypto password (split_dollar stored) ≡ true
hashed crypto password salt stored none e plain hex h = cc
hashed crypto password salt stored (some digest) e plain hex h =
    subst (λ t. check_parts crypto password (split_dollar t) ≡ true) (some-injective h)
      (ap (check_parts crypto password) (split-encoded salt digest plain (hex digest refl))
        ∙ matches crypto password salt digest e)

-- If the salt and the digests of scrypt have no `$` in them, as hexadecimal texts have none, then a
-- password is verified against the hash that was made of it.
pub verify_password-hash_password :
    (crypto : Crypto) (password salt stored : String)
    → is_plain salt ≡ true
    → ((p s d : String) → crypto.scrypt p s ≡ some d → is_plain d ≡ true)
    → hash_password crypto password salt ≡ some stored
    → verify_password crypto password stored ≡ true
unfolding verify_password hash_password
verify_password-hash_password crypto password salt stored plain hex h =
    hashed crypto password salt stored (crypto.scrypt password salt) refl plain (hex password salt)
      h
