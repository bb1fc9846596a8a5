-- ===== src/Identity/Random.antt =====
-- What the package takes from Go's cryptography and encodings, and the drawing of texts.
use bazusop.Base.{ℕ, suc, zero, String, List, [], ◌∷◌, Option, Result, ok, err}
use bazusop.Identity.{Bytes, Error}

-- An AES-GCM cipher under one key.
pub record Aead : Type 0 where
  pub nonce_size : ℕ
  pub seal : Bytes → Bytes → Bytes
  pub unseal : Bytes → Bytes → Option Bytes

pub record Crypto : Type 0 where
  pub argon2 : String → Bytes → ℕ → ℕ → ℕ → ℕ → Bytes
  pub encode_base64 : Bytes → String
  pub decode_base64 : String → Option Bytes
  -- fmt.Sscanf with "m=%d,t=%d,p=%d".
  pub scan_parameters : String → Option (ℕ × ℕ × ℕ)
  pub hmac_sha1 : Bytes → Bytes → Bytes
  -- aes.NewCipher and cipher.NewGCM under the digest of a key.
  pub aead : String → Result Error Aead
  -- SHA-256 of a text, in hexadecimal digits.
  pub digest : String → String
  pub hex : Bytes → String
  -- TOTPProvisioningURI.
  pub provisioning_uri : String → String → Bytes → String
  -- The text of some bytes, and its bytes again.
  pub text_of : Bytes → String
  pub bytes_of : String → Bytes

-- rand.Read into a slice: the bytes that were drawn.
abbrev pub Drawn : Type 0
Drawn = Result Error Bytes

abbrev pub hexed : Crypto → Drawn → Result Error String
hexed c (ok b) = ok (c.hex b)
hexed c (err e) = err e

abbrev pub new_id : Crypto → Drawn → Result Error String
new_id c drawn = hexed c drawn

abbrev pub more_codes :
    Result Error String → Result Error (List String) → Result Error (List String)
more_codes (err e) rest = err e
more_codes (ok code) (err e) = err e
more_codes (ok code) (ok codes) = ok (code ∷ codes)

-- `drawn` has what is drawn for each code, and at least `count` entries.
unfoldable pub generate_recovery_codes : Crypto → ℕ → (ℕ → Drawn) → Result Error (List String)
generate_recovery_codes c zero drawn = ok []
generate_recovery_codes c (suc count) drawn =
    more_codes (hexed c (drawn 0)) (generate_recovery_codes c count (λ n. drawn (suc n)))

abbrev pub hash_recovery_code : Crypto → String → String
hash_recovery_code c code = c.digest code

abbrev pub hash_token : Crypto → String → String
hash_token c token = hash_recovery_code c token
