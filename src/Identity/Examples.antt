-- ===== src/Identity/Examples.antt =====
-- The theorems on users and invitations at concrete stores, and runs of the code.
use Prim.Native.String.{len}
use bazusop.Base.{
  eq_iff, ℕ, zero, suc, ◌+◌, ◌*◌, ◌≡◌, ◌<◌, refl, true, false, String, Bool, List, [], ◌∷◌, none,
  some, arith, ok, err, ◌≢◌, ◌↔◌, ◌==◌, string_comparable, nat_comparable, if◌then◌else◌, length,
  second, hour, Time,
}
use bazusop.Base.Assoc.{lookup, insert}
use bazusop.Jobs.Toy.{write_byte, encode, decode, decode-encode}
use bazusop.Authorization.Store.{append}
use bazusop.Identity.{
  Bytes, already_bootstrapped, invite_expired, User, Invite, MemoryStore, TotpEnrollment,
  role_platform_admin, identity_type_local,
}
use bazusop.Identity.Random.{Crypto, Aead, generate_recovery_codes}
use bazusop.Identity.Password.{
  parameters, encoded, hash_password, split_dollar, constant_time_compare, verify_password,
}
use bazusop.Identity.Totp.{
  totp_step, unix_epoch, unix_seconds, counter_at, big_endian, six_digits, hotp_code,
  generate_totp_code, verify_totp_code, encrypt_totp_secret, decrypt_totp_secret, last_byte,
}
use bazusop.Identity.Secrets.{
  has_dollar, IsSound, hashed, verify_password-hash_password,
  decrypt_totp_secret-encrypt_totp_secret,
}
use bazusop.Identity.Window.{IsRecent, verify_totp_code-generate_totp_code}
use bazusop.Identity.Store.{
  empty_store, email_key, complete_bootstrap, create_user, user_by_email, save_invite,
  invite_by_token_hash, consume_invite, save_recovery_codes, consume_recovery_code,
}
use bazusop.Identity.Service.{
  Service, Draws, issue_codes, bootstrap, first_user, create_invite, invited_user, accept_invite,
  redeem_invite, enrollment,
}
use bazusop.Identity.SignIn.{
  with_password, verify_credentials, verify_credentials_with_recovery_code,
}
use bazusop.Identity.History.{recovers, run}
use bazusop.Identity.Invitations.{Invited, redeem_invite-once, redeem_invite-Invited}
use bazusop.Identity.Closed.{IsConfirmed}
use bazusop.Identity.Recovery.{recovery-once}
use bazusop.Identity.Login.{IsChecked, verify_credentials-IsChecked}
use bazusop.Identity.Bootstrap.{bootstrap-once}
use bazusop.Identity.Race.{IsAcceptable, accept_invite-twice}

-- Stand-ins for the cryptographic packages that meet what is assumed of them.
abbrev fill : ℕ → ℕ → Bytes
fill zero b = []
fill (suc n) b = b ∷ fill n b

abbrev gcm : Aead
gcm = record { nonce_size = 2; seal = λ nonce secret. secret; unseal = λ nonce sealed. some sealed }

abbrev toy : Crypto
toy = record {
  argon2 = λ password salt time memory threads n. fill n (len password);
  encode_base64 = encode;
  decode_base64 = decode;
  scan_parameters = λ text. if text == parameters then some (65536, 1, 4) else none;
  hmac_sha1 = λ secret message. 0 ∷ 0 ∷ 0 ∷ last_byte message ∷ fill 16 0;
  aead = λ key. ok gcm;
  digest = λ text. text;
  hex = encode;
  provisioning_uri = λ issuer email secret. email;
  text_of = λ b. "";
  bytes_of = λ text. [];
}

write_byte_plain : (n : ℕ) (s : String) → has_dollar s ≡ false → has_dollar (write_byte n s) ≡ false
unfolding write_byte has_dollar
write_byte_plain zero s h = h
write_byte_plain (suc n) s h = write_byte_plain n s h

encode_plain : (b : Bytes) → has_dollar (encode b) ≡ false
unfolding encode has_dollar
encode_plain [] = refl
encode_plain (n ∷ b) = write_byte_plain n (encode b) (encode_plain b)

length-fill : (n b : ℕ) → length (fill n b) ≡ n
length-fill zero b = refl
length-fill (suc n) b = omega (arith, length-fill n b)

toy-IsSound : IsSound toy
toy-IsSound = record {
  decodes = decode-encode;
  plain = encode_plain;
  scans = refl;
  sized = λ password salt time memory threads n. length-fill n (len password);
}

verify_password-hash_password_example :
    (b : Bool) × (verify_password toy (encoded toy (1 ∷ []) (fill 32 5)) "horse" ≡ ok b)
    × ((b ≡ true) ↔ (hashed toy "horse" (1 ∷ []) ≡ hashed toy "stork" (1 ∷ [])))
unfolding hash_password
verify_password-hash_password_example =
    verify_password-hash_password toy "stork" "horse" (encoded toy (1 ∷ []) (fill 32 5)) (1 ∷ [])
      toy-IsSound refl

decrypt_totp_secret-encrypt_totp_secret_example :
    decrypt_totp_secret toy (1 ∷ 7 ∷ 8 ∷ 42 ∷ []) "key" ≡ ok (42 ∷ [])
unfolding encrypt_totp_secret
decrypt_totp_secret-encrypt_totp_secret_example =
    decrypt_totp_secret-encrypt_totp_secret toy (42 ∷ []) (7 ∷ 8 ∷ []) (1 ∷ 7 ∷ 8 ∷ 42 ∷ []) "key"
      gcm refl (λ nonce secret. refl) refl refl

abbrev noon : Time
noon = (unix_epoch + 1000) * second

noon-IsRecent : IsRecent noon
noon-IsRecent = (omega arith, omega arith)

later-IsRecent : IsRecent (noon + totp_step)
later-IsRecent = (omega arith, omega arith)

verify_totp_code-generate_totp_code_example :
    verify_totp_code toy (42 ∷ []) (generate_totp_code toy (42 ∷ []) noon) (noon + totp_step) ≡ true
verify_totp_code-generate_totp_code_example =
    verify_totp_code-generate_totp_code toy (42 ∷ []) noon (noon + totp_step) noon-IsRecent
      later-IsRecent (omega arith) (omega arith)

abbrev service : Service
service = record { crypto = toy; totp_encryption_key = "key"; site_role_grantor = none }

abbrev draws : ℕ → Draws
draws n = record {
  salt = ok (1 ∷ []);
  secret = ok (42 ∷ []);
  nonce = ok (7 ∷ 8 ∷ []);
  token = ok (n ∷ []);
  id = ok (n ∷ []);
  codes = λ i. ok (i ∷ []);
}

-- The hub after it was bootstrapped.
abbrev founded : MemoryStore
founded = (bootstrap service "org" "root@x" "stork" (draws 1) noon empty_store).0

abbrev root : User
root = first_user "org" "root@x" (encoded toy (1 ∷ []) (fill 32 5)) (1 ∷ 7 ∷ 8 ∷ 42 ∷ []) "ab" noon

abbrev codes : List String
codes =
    "b" ∷ "ab" ∷ "aab" ∷ "aaab" ∷ "aaaab" ∷ "aaaaab" ∷ "aaaaaab" ∷ "aaaaaaab" ∷ "aaaaaaaab"
    ∷ "aaaaaaaaab" ∷ []

bootstrapped :
    (bootstrap service "org" "root@x" "stork" (draws 1) noon empty_store).1
    ≡ ok (root, enrollment service "root@x" (42 ∷ []) codes)
unfolding bootstrap hash_password encrypt_totp_secret complete_bootstrap issue_codes
    generate_recovery_codes save_recovery_codes encode write_byte
bootstrapped = refl

bootstrap-once_example :
    bootstrap service "org" "eve@x" "horse"
      (draws 2)
      noon
      (run service founded (recovers "org" "root@x" "stork" "b" ∷ []))
    ≡ (run service founded (recovers "org" "root@x" "stork" "b" ∷ []), err already_bootstrapped)
bootstrap-once_example =
    bootstrap-once service empty_store (recovers "org" "root@x" "stork" "b" ∷ []) "org" "root@x"
      "stork" "org" "eve@x" "horse" (draws 1) (draws 2) noon noon
      (root, enrollment service "root@x" (42 ∷ []) codes) bootstrapped

abbrev code_at_noon : String
code_at_noon = generate_totp_code toy (42 ∷ []) noon

logged_in :
    (verify_credentials service "org" "root@x" "stork" code_at_noon (noon + 1) founded).1 ≡ ok root
unfolding bootstrap hash_password encrypt_totp_secret complete_bootstrap issue_codes
    generate_recovery_codes save_recovery_codes encode write_byte encoded append verify_credentials
    with_password user_by_email email_key lookup insert verify_password split_dollar decode
    constant_time_compare decrypt_totp_secret verify_totp_code generate_totp_code hotp_code
    six_digits big_endian counter_at unix_seconds
logged_in = refl

soon-IsRecent : IsRecent (noon + 1)
soon-IsRecent = (omega arith, omega arith)

counted : 0 < counter_at (noon + 1)
unfolding counter_at unix_seconds
counted = omega arith

verify_credentials-IsChecked_example :
    IsChecked service founded "org" "root@x" "stork" code_at_noon (noon + 1) root
verify_credentials-IsChecked_example =
    verify_credentials-IsChecked service founded "org" "root@x" "stork" code_at_noon (noon + 1) root
      soon-IsRecent counted logged_in

recovered :
    (verify_credentials_with_recovery_code service "org" "root@x" "stork" "aab" founded).1 ≡ ok root
unfolding bootstrap hash_password encrypt_totp_secret complete_bootstrap issue_codes
    generate_recovery_codes save_recovery_codes encode write_byte encoded append
    verify_credentials_with_recovery_code with_password user_by_email email_key lookup insert
    verify_password split_dollar decode constant_time_compare consume_recovery_code
recovered = refl

abbrev after_recovery : MemoryStore
after_recovery =
    (verify_credentials_with_recovery_code service "org" "root@x" "stork" "aab" founded).0

confirmed : IsConfirmed "ab" after_recovery
unfolding bootstrap hash_password encrypt_totp_secret complete_bootstrap issue_codes
    generate_recovery_codes save_recovery_codes encode write_byte encoded append
    verify_credentials_with_recovery_code with_password user_by_email email_key lookup insert
    verify_password split_dollar decode constant_time_compare consume_recovery_code
confirmed = (root, refl, refl)

recovery-once_example :
    (verify_credentials_with_recovery_code service "org" "root@x" "stork" "aab"
      (run service after_recovery (recovers "org" "root@x" "stork" "b" ∷ []))).1
    ≢ ok root
recovery-once_example =
    recovery-once service founded (recovers "org" "root@x" "stork" "b" ∷ []) "org" "root@x" "stork"
      "org" "root@x" "stork" "aab" root root recovered confirmed (tt, tt) refl

abbrev invited : MemoryStore
invited =
    (create_invite service "ab" "org" "ann@x" role_platform_admin [] "" (draws 3) noon noon
      founded).0

abbrev ann : Invite
ann = record {
  id = "aaab";
  organization_id = "org";
  email = "ann@x";
  role = role_platform_admin;
  site_role_grants = [];
  identity_type = identity_type_local;
  created_by = "ab";
  expires_at = noon + 24 * hour;
  consumed_at = none;
  revoked_at = none;
  created_at = noon;
}

abbrev annas : User × TotpEnrollment
annas = (
  invited_user ann (encoded toy (1 ∷ []) (fill 32 5)) (1 ∷ 7 ∷ 8 ∷ 42 ∷ []) "aaaab" noon,
  enrollment service "ann@x" (42 ∷ []) [],
)

redeemed : (redeem_invite service "aaab" "goose" (draws 4) noon noon noon invited).1 ≡ ok annas
unfolding bootstrap hash_password encrypt_totp_secret complete_bootstrap issue_codes
    generate_recovery_codes save_recovery_codes encode write_byte encoded create_invite save_invite
    redeem_invite accept_invite invite_by_token_hash create_user consume_invite lookup insert
redeemed = refl

redeem_invite-Invited_example :
    (i : Invite) × (invite_by_token_hash invited "aaab" ≡ ok i) × Invited i noon annas.0
redeem_invite-Invited_example =
    redeem_invite-Invited service invited "aaab" "goose" (draws 4) noon noon noon annas redeemed

abbrev joined : MemoryStore
joined = (redeem_invite service "aaab" "goose" (draws 4) noon noon noon invited).0

redeem_invite-once_example :
    redeem_invite service "aaab" "thief"
      (draws 5)
      noon
      noon
      noon
      (run service joined (recovers "org" "root@x" "stork" "b" ∷ []))
    ≡ (run service joined (recovers "org" "root@x" "stork" "b" ∷ []), err invite_expired)
redeem_invite-once_example =
    redeem_invite-once service invited (recovers "org" "root@x" "stork" "b" ∷ []) "aaab" "goose"
      "thief" (draws 4) (draws 5) noon noon noon noon noon noon annas redeemed (tt, tt)

abbrev new_name : ℕ → String
new_name n = toy.hex (n ∷ [])

abbrev other : User × TotpEnrollment
other = (
  invited_user ann (encoded toy (1 ∷ []) (fill 32 5)) (1 ∷ 7 ∷ 8 ∷ 42 ∷ []) "aaaaab" noon,
  enrollment service "ann@x" (42 ∷ []) [],
)

found : invite_by_token_hash invited "aaab" ≡ ok ann
unfolding bootstrap hash_password encrypt_totp_secret complete_bootstrap issue_codes
    generate_recovery_codes save_recovery_codes encode write_byte encoded create_invite save_invite
    invite_by_token_hash lookup insert
found = refl

acceptable :
    (password : String) (n : ℕ)
    → IsAcceptable service ann password
        (draws n)
        noon
        (new_name n)
        (encoded toy (1 ∷ []) (fill 32 (len password)))
        (42 ∷ [])
        (1 ∷ 7 ∷ 8 ∷ 42 ∷ [])
unfolding hash_password encrypt_totp_secret encoded
acceptable password n = record {
  fresh = refl;
  local = refl;
  hashed = refl;
  drawn = refl;
  encrypted = refl;
  named = refl;
  granted = refl;
}

names_apart : new_name 4 ≢ new_name 5
unfolding write_byte encode
names_apart = λ e. let t = (eq_iff (new_name 4) (new_name 5)).1 e in cc

abbrev second_store : MemoryStore
second_store =
    (accept_invite service "aaab" "crane" (draws 5) noon noon noon ann
      (accept_invite service "aaab" "goose" (draws 4) noon noon noon ann invited).0).0

accept_invite-twice_example :
    ((accept_invite service "aaab" "goose" (draws 4) noon noon noon ann invited).1 ≡ ok annas)
    × ((accept_invite service "aaab" "crane"
          (draws 5)
          noon
          noon
          noon
          ann
          (accept_invite service "aaab" "goose" (draws 4) noon noon noon ann invited).0).1
        ≡ ok other)
    × (lookup (new_name 4) second_store.users_by_id ≡ some annas.0)
    × (lookup (new_name 5) second_store.users_by_id ≡ some other.0)
unfolding write_byte encode
accept_invite-twice_example =
    accept_invite-twice service invited "aaab" ann "goose" "crane" (draws 4) (draws 5) noon noon
      noon noon noon noon (new_name 4) (encoded toy (1 ∷ []) (fill 32 5)) (42 ∷ [])
      (1 ∷ 7 ∷ 8 ∷ 42 ∷ []) (new_name 5) (encoded toy (1 ∷ []) (fill 32 5)) (42 ∷ [])
      (1 ∷ 7 ∷ 8 ∷ 42 ∷ []) found (acceptable "goose" 4) (acceptable "crane" 5) names_apart
