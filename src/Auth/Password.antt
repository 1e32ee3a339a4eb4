-- ===== src/Auth/Password.antt =====
-- The stored form of a password in app/services/auth.py, `scrypt$salt$digest`.
use Prim.Native.String as Text
use Prim.Native.String.{◌++◌}
use Prim.Native.Char.{Char, code}
use crane_tracker.Base.{
  String, Bool, false, Option, none, some, List, [], ◌∷◌, ◌==◌, text_eq, if◌then◌else◌,
}
use crane_tracker.Env.{Crypto}

-- one more character in front of the first part
unfoldable pub push : Char → List String → List String
push c [] = Text.◌∷◌ c Text.[] ∷ []
push c (part ∷ parts) = Text.◌∷◌ c part ∷ parts

-- `s.split("$")`
unfoldable pub split_dollar : String → List String
unfolding push
split_dollar Text.[] = Text.[] ∷ []
split_dollar (Text.◌∷◌ c s) =
    let rest = split_dollar s in if code c == b'$' then Text.[] ∷ rest else push c rest

-- `f"scrypt${salt}${digest}"`
abbrev pub encoded : String → String → String
encoded salt digest = "scrypt$" ++ (salt ++ ("$" ++ digest))

-- `_password_digest`; `none` where the salt is no hexadecimal text
abbrev password_digest : Crypto → String → String → Option String
password_digest crypto password salt = crypto.scrypt password salt

-- with the salt that was drawn; `none` where scrypt raises
unfoldable pub hash_password : Crypto → String → String → Option String
hash_password crypto password salt = elim (password_digest crypto password salt) [
  | none ↦ none
  | some digest ↦ some (encoded salt digest)
]

-- `hmac.compare_digest`, or False where the digest raises
abbrev pub digest_is : Option String → String → Bool
digest_is none expected = false
digest_is (some actual) expected = text_eq actual expected

-- the three parts, or False where there are not three
abbrev pub check_parts : Crypto → String → List String → Bool
check_parts crypto password (algorithm ∷ salt ∷ expected ∷ []) =
    if text_eq algorithm "scrypt"
    then digest_is (password_digest crypto password salt) expected
    else false
check_parts crypto password _ = false

unfoldable pub verify_password : Crypto → String → String → Bool
unfolding split_dollar
verify_password crypto password stored = check_parts crypto password (split_dollar stored)
