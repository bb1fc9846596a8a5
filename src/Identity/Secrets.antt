-- ===== src/Identity/Secrets.antt =====
-- What is stored of a password verifies that password, and what is stored of a secret is read back.
use Prim.Native.Char.{code}
use bazusop.Base.{
  drop, ℕ, zero, suc, ◌≡◌, refl, ap, String, Bool, true, false, ◌||◌, [], ◌∷◌, ◌++◌, some, ok, ◌==◌,
  string_comparable, nat_comparable, arith, ◌↔◌, length, length-append, take, ltb, Bool-cases, inl,
  inr,
}
use bazusop.Authorization.Store.{append}
use bazusop.Identity.{Bytes}
use bazusop.Identity.Random.{Aead, Crypto}
use bazusop.Identity.Password.{
  parameters, argon2_time, argon2_memory, argon2_threads, argon2_key_len, encoded, hash_password,
  split_dollar, constant_time_compare, verify_password,
}
use bazusop.Identity.Totp.{encrypt_totp_secret, decrypt_totp_secret}

unfoldable pub has_dollar : String → Bool
has_dollar String.[] = false
has_dollar (String.◌∷◌ c s) = code c == b'$' || has_dollar s

-- What is taken of base64, of fmt and of Argon2id.
pub record IsSound (c : Crypto) : Type 0 where
  pub decodes : (b : Bytes) → c.decode_base64 (c.encode_base64 b) ≡ some b
  pub plain : (b : Bytes) → has_dollar (c.encode_base64 b) ≡ false
  pub scans : c.scan_parameters parameters ≡ some (argon2_memory, argon2_time, argon2_threads)
  pub sized :
      (password : String) (salt : Bytes) (time memory threads n : ℕ)
      → length (c.argon2 password salt time memory threads n) ≡ n

split_dollar-append :
    (s t : String)
    → has_dollar s ≡ false
    → split_dollar (append s (append "$" t)) ≡ s ∷ split_dollar t
unfolding has_dollar append split_dollar
split_dollar-append String.[] t h = refl
split_dollar-append (String.◌∷◌ c s) t h = elim (Bool-cases (code c == b'$')) [
  | inl e ↦ ground arith
  | inr f ↦ rw (f, split_dollar-append s t (ground arith)) refl
]

split_dollar_last : (s : String) → has_dollar s ≡ false → split_dollar s ≡ s ∷ []
unfolding has_dollar split_dollar
split_dollar_last String.[] h = refl
split_dollar_last (String.◌∷◌ c s) h = elim (Bool-cases (code c == b'$')) [
  | inl e ↦ ground arith
  | inr f ↦ rw (f, split_dollar_last s (ground arith)) refl
]

split_dollar-encoded :
    (c : Crypto) (salt hash : Bytes)
    → IsSound c
    → split_dollar (encoded c salt hash)
      ≡ "" ∷ "argon2id" ∷ "v=19" ∷ parameters ∷ c.encode_base64 salt ∷ c.encode_base64 hash ∷ []
unfolding encoded append split_dollar has_dollar
split_dollar-encoded c salt hash w =
    rw
      (
        split_dollar-append (c.encode_base64 salt) (c.encode_base64 hash) (w.plain salt),
        split_dollar_last (c.encode_base64 hash) (w.plain hash),
      )
      refl

constant_time_compare_iff : (a b : Bytes) → (constant_time_compare a b ≡ true) ↔ (a ≡ b)
unfolding constant_time_compare
constant_time_compare_iff a b = (to a b, λ e. rw e (same b))
  where
    to : (a b : Bytes) → constant_time_compare a b ≡ true → a ≡ b
    to [] [] h = refl
    to [] (y ∷ b) h = cc
    to (x ∷ a) [] h = cc
    to (x ∷ a) (y ∷ b) h =
        let rest : constant_time_compare a b ≡ true = ground arith in
        let first : x ≡ y = ground arith in let tail = to a b rest in cc

    same : (b : Bytes) → constant_time_compare b b ≡ true
    same [] = refl
    same (y ∷ b) = ground (arith, same b)

-- The hash of a password under a salt.
abbrev pub hashed : Crypto → String → Bytes → Bytes
hashed c password salt =
    c.argon2 password salt argon2_time argon2_memory argon2_threads argon2_key_len

verify_password-hash :
    (c : Crypto) (password attempt stored : String) (salt : Bytes)
    → IsSound c
    → hash_password c password (ok salt) ≡ ok stored
    → verify_password c stored attempt
      ≡ ok (constant_time_compare (hashed c attempt salt) (hashed c password salt))
unfolding verify_password hash_password
verify_password-hash c password attempt stored salt w h =
    let hash = hashed c password salt in
    let whole : stored ≡ encoded c salt hash = cc in
    rw
      (
        whole,
        split_dollar-encoded c salt hash w,
        w.scans,
        w.decodes salt,
        w.decodes hash,
        w.sized password salt argon2_time argon2_memory argon2_threads argon2_key_len,
      )
      refl

-- With sound encodings, what HashPassword stores of a password under a salt is read back by
-- VerifyPassword without an error, and verifies exactly the texts that have the same Argon2id hash under
-- that salt, the password among them.
pub verify_password-hash_password :
    (c : Crypto) (password attempt stored : String) (salt : Bytes)
    → IsSound c
    → hash_password c password (ok salt) ≡ ok stored
    → (b : Bool) × (verify_password c stored attempt ≡ ok b)
      × ((b ≡ true) ↔ (hashed c attempt salt ≡ hashed c password salt))
verify_password-hash_password c password attempt stored salt w h = (
  constant_time_compare (hashed c attempt salt) (hashed c password salt),
  verify_password-hash c password attempt stored salt w h,
  constant_time_compare_iff (hashed c attempt salt) (hashed c password salt),
)

take-append : (xs ys : Bytes) (n : ℕ) → length xs ≡ n → take n (xs ++ ys) ≡ xs
take-append [] ys zero h = refl
take-append [] ys (suc n) h = ground arith
take-append (x ∷ xs) ys zero h = ground arith
take-append (x ∷ xs) ys (suc n) h = ap (λ (l : Bytes). x ∷ l) (take-append xs ys n (ground arith))

drop-append : (xs ys : Bytes) (n : ℕ) → length xs ≡ n → drop n (xs ++ ys) ≡ ys
drop-append [] [] n h = refl
drop-append [] (y ∷ ys) zero h = refl
drop-append [] (y ∷ ys) (suc n) h = ground arith
drop-append (x ∷ xs) ys zero h = ground arith
drop-append (x ∷ xs) ys (suc n) h = drop-append xs ys n (ground arith)

-- The cipher opens what it sealed under the same nonce.
abbrev pub Opens : Aead → Type 0
Opens gcm = (nonce secret : Bytes) → gcm.unseal nonce (gcm.seal nonce secret) ≡ some secret

-- A secret that was encrypted under a key, with a nonce of the cipher's size, is decrypted to itself
-- under that key, whatever its length.
pub decrypt_totp_secret-encrypt_totp_secret :
    (c : Crypto) (secret nonce stored : Bytes) (key : String) (gcm : Aead)
    → c.aead key ≡ ok gcm
    → Opens gcm
    → length nonce ≡ gcm.nonce_size
    → encrypt_totp_secret c secret key (ok nonce) ≡ ok stored
    → decrypt_totp_secret c stored key ≡ ok secret
unfolding encrypt_totp_secret decrypt_totp_secret
decrypt_totp_secret-encrypt_totp_secret c secret nonce stored key gcm a o n h =
    let whole : stored ≡ 1 ∷ (nonce ++ gcm.seal nonce secret) = ground (arith, a, h) in
    let long : ltb (length (nonce ++ gcm.seal nonce secret)) gcm.nonce_size ≡ false =
      ground (arith, length-append {0} nonce (gcm.seal nonce secret), n) in
    rw
      (
        whole,
        a,
        long,
        take-append nonce (gcm.seal nonce secret) gcm.nonce_size n,
        drop-append nonce (gcm.seal nonce secret) gcm.nonce_size n,
        o nonce secret,
      )
      refl
