-- ===== src/Identity/Password.antt =====
-- password.go: how a password is stored and checked.
use Prim.Native.Char.{Char, code}
use bazusop.Base.{
  ℕ, ◌*◌, String, Bool, true, false, not, List, [], ◌∷◌, Option, none, some, Result, ok, err, ◌==◌,
  string_comparable, nat_comparable, if◌then◌else◌, length,
}
use bazusop.Authorization.Store.{append}
use bazusop.Identity.{Bytes, Error, other}
use bazusop.Identity.Random.{Crypto, Drawn}

abbrev pub argon2_time : ℕ
argon2_time = 1

abbrev pub argon2_memory : ℕ
argon2_memory = 64 * 1024

abbrev pub argon2_threads : ℕ
argon2_threads = 4

abbrev pub argon2_key_len : ℕ
argon2_key_len = 32

abbrev pub parameters : String
parameters = "m=65536,t=1,p=4"

-- The text of a salt and a hash.
unfoldable pub encoded : Crypto → Bytes → Bytes → String
unfolding append
encoded c salt hash = append "$argon2id$v=19$" (
    append parameters
      (append "$" (append (c.encode_base64 salt) (append "$" (c.encode_base64 hash)))))

unfoldable pub hash_password : Crypto → String → Drawn → Result Error String
unfolding encoded
hash_password c password (err e) = err e
hash_password c password (ok salt) = ok (
    encoded c salt (c.argon2 password salt argon2_time argon2_memory argon2_threads argon2_key_len))

abbrev pub push : Char → List String → List String
push c [] = String.◌∷◌ c String.[] ∷ []
push c (part ∷ parts) = String.◌∷◌ c part ∷ parts

-- strings.Split(s, "$").
unfoldable pub split_dollar : String → List String
split_dollar String.[] = String.[] ∷ []
split_dollar (String.◌∷◌ c s) =
    let rest = split_dollar s in if code c == b'$' then String.[] ∷ rest else push c rest

-- subtle.ConstantTimeCompare(a, b) == 1.
unfoldable pub constant_time_compare : Bytes → Bytes → Bool
constant_time_compare [] [] = true
constant_time_compare (a ∷ as') (b ∷ bs) =
    let rest = constant_time_compare as' bs in if a == b then rest else false
constant_time_compare _ _ = false

abbrev pub compared : Crypto → String → ℕ × ℕ × ℕ → Option Bytes → Option Bytes → Result Error Bool
compared c password p none expected = err (other "malformed salt")
compared c password p (some salt) none = err (other "malformed hash")
compared c password (memory, time, threads) (some salt) (some expected) =
    ok (
      constant_time_compare (c.argon2 password salt time memory threads (length expected)) expected)

abbrev pub with_parameters :
    Crypto → String → String → String → Option (ℕ × ℕ × ℕ) → Result Error Bool
with_parameters c password salt hash none = err (other "malformed argon2id parameters")
with_parameters c password salt hash (some p) =
    compared c password p (c.decode_base64 salt) (c.decode_base64 hash)

abbrev pub with_parts : Crypto → String → List String → Result Error Bool
with_parts c password (p0 ∷ p1 ∷ p2 ∷ p3 ∷ p4 ∷ p5 ∷ []) =
    if not (p1 == "argon2id")
    then err (other "malformed encoded hash")
    else with_parameters c password p4 p5 (c.scan_parameters p3)
with_parts c password parts = err (other "malformed encoded hash")

unfoldable pub verify_password : Crypto → String → String → Result Error Bool
unfolding split_dollar
verify_password c encoded_hash password = with_parts c password (split_dollar encoded_hash)
