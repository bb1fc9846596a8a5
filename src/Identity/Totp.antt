-- ===== src/Identity/Totp.antt =====
-- totp.go: one-time codes, and the encryption of their secrets.
use Prim.Native.Char.{code}
use bazusop.Base.{
  drop, ℕ, zero, suc, ◌+◌, ◌-◌, ◌*◌, ◌/◌, ◌%◌, ◌^◌, String, Bool, not, List, [], ◌∷◌, ◌++◌, Option,
  none, some, Result, ok, err, ◌==◌, string_comparable, nat_comparable, ltb, if◌then◌else◌, length,
  take, Time, Duration, second, any,
}
use bazusop.Identity.{Bytes, Error, other}
use bazusop.Identity.Random.{Crypto, Aead, Drawn}

abbrev pub totp_step : Duration
totp_step = 30 * second

-- The seconds from Go's zero time to 1970.
abbrev pub unix_epoch : ℕ
unix_epoch = 62135596800

-- uint64(at.Unix()), which wraps around before 1970.
unfoldable pub unix_seconds : Time → ℕ
unix_seconds at = (at / second + (2 ^ 64 - unix_epoch)) % 2 ^ 64

unfoldable pub counter_at : Time → ℕ
unfolding unix_seconds
counter_at at = unix_seconds at / 30

-- binary.BigEndian.PutUint64 into `n` bytes.
unfoldable pub big_endian : ℕ → ℕ → Bytes
big_endian zero counter = []
big_endian (suc n) counter = big_endian n (counter / 256) ++ counter % 256 ∷ []

abbrev pub byte_at : ℕ → Bytes → ℕ
byte_at n [] = 0
byte_at zero (b ∷ bs) = b
byte_at (suc n) (b ∷ bs) = byte_at n bs

abbrev pub last_byte : Bytes → ℕ
last_byte [] = 0
last_byte (b ∷ []) = b
last_byte (b ∷ c ∷ bs) = last_byte (c ∷ bs)

-- The four bytes at the offset that the last byte names, without the sign bit.
abbrev pub truncated : Bytes → ℕ
truncated sum =
    let offset = last_byte sum % 16 in
    (byte_at offset sum * 2 ^ 24
      + byte_at (offset + 1) sum * 2 ^ 16
      + byte_at (offset + 2) sum * 2 ^ 8
      + byte_at (offset + 3) sum)
    % 2 ^ 31

abbrev digit : ℕ → String → String
digit n rest =
    if n == 0
    then String.◌∷◌ "0" rest
    else if n == 1
    then String.◌∷◌ "1" rest
    else if n == 2
    then String.◌∷◌ "2" rest
    else if n == 3
    then String.◌∷◌ "3" rest
    else if n == 4
    then String.◌∷◌ "4" rest
    else if n == 5
    then String.◌∷◌ "5" rest
    else if n == 6
    then String.◌∷◌ "6" rest
    else if n == 7
    then String.◌∷◌ "7" rest
    else if n == 8
    then String.◌∷◌ "8" rest
    else String.◌∷◌ "9" rest

-- fmt.Sprintf("%06d", n), for numbers of six digits at most.
unfoldable pub six_digits : ℕ → String
six_digits n = digit (n / 100000 % 10) (
    digit (n / 10000 % 10)
      (digit (n / 1000 % 10) (digit (n / 100 % 10) (digit (n / 10 % 10) (digit (n % 10) "")))))

unfoldable pub hotp_code : Crypto → Bytes → ℕ → String
unfolding six_digits big_endian
hotp_code c secret counter =
    six_digits (truncated (c.hmac_sha1 secret (big_endian 8 counter)) % 1000000)

unfoldable pub generate_totp_code : Crypto → Bytes → Time → String
unfolding hotp_code counter_at
generate_totp_code c secret at = hotp_code c secret (counter_at at)

-- The counters that the code may be for, as 64-bit numbers.
abbrev pub candidates : ℕ → List ℕ
candidates counter = ((counter + (2 ^ 64 - 1)) % 2 ^ 64) ∷ counter ∷ ((counter + 1) % 2 ^ 64) ∷ []

unfoldable pub verify_totp_code : Crypto → Bytes → String → Time → Bool
unfolding hotp_code counter_at
verify_totp_code c secret code at =
    any (λ candidate. hotp_code c secret candidate == code) (candidates (counter_at at))

abbrev pub totp_key_version : ℕ
totp_key_version = 1

abbrev pub sealed_with : Bytes → Aead → Drawn → Result Error Bytes
sealed_with secret gcm (err e) = err e
sealed_with secret gcm (ok nonce) = ok (totp_key_version ∷ (nonce ++ gcm.seal nonce secret))

abbrev pub encrypt_under : Bytes → Drawn → Result Error Aead → Result Error Bytes
encrypt_under secret nonce (err e) = err e
encrypt_under secret nonce (ok gcm) = sealed_with secret gcm nonce

unfoldable pub encrypt_totp_secret : Crypto → Bytes → String → Drawn → Result Error Bytes
encrypt_totp_secret c secret encryption_key nonce =
    encrypt_under secret nonce (c.aead encryption_key)

abbrev pub opened : Option Bytes → Result Error Bytes
opened none = err (other "decrypt TOTP secret")
opened (some secret) = ok secret

abbrev pub decrypt_under : Bytes → Result Error Aead → Result Error Bytes
decrypt_under sealed (err e) = err e
decrypt_under sealed (ok gcm) =
    if ltb (length sealed) gcm.nonce_size
    then err (other "truncated TOTP ciphertext")
    else opened (gcm.unseal (take gcm.nonce_size sealed) (drop gcm.nonce_size sealed))

unfoldable pub decrypt_totp_secret : Crypto → Bytes → String → Result Error Bytes
decrypt_totp_secret c [] encryption_key = err (other "unsupported TOTP secret key version")
decrypt_totp_secret c (version ∷ sealed) encryption_key =
    if not (version == totp_key_version)
    then err (other "unsupported TOTP secret key version")
    else decrypt_under sealed (c.aead encryption_key)
