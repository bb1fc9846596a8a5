-- ===== src/Identity/Login.antt =====
-- Who is logged in by a password and a one-time code.
use bazusop.Base.{
  not, ◌≡◌, ◌<◌, refl, sym, true, false, String, Bool, Time, Result, ok, err, lift, refuse, pure,
  resume, ◌>>=◌, ◌>>◌, Bool-cases, inl, inr, arith, string_comparable,
}
use bazusop.Identity.{Bytes, Error, invalid_credentials, invalid_totp_code, User, MemoryStore}
use bazusop.Identity.Password.{verify_password}
use bazusop.Identity.Totp.{decrypt_totp_secret, verify_totp_code, counter_at}
use bazusop.Identity.Window.{IsRecent, IsCode, verify_totp_code-IsCode}
use bazusop.Identity.Store.{user_by_email}
use bazusop.Identity.Service.{Service}
use bazusop.Identity.SignIn.{or_invalid, with_password, verify_credentials}

-- The user is stored under the address, has the password, and its secret made the code at the time.
pub record IsChecked (sv : Service) (s : MemoryStore) (organization email password code : String)
    (now : Time) (u : User) : Type 0 where
  pub stored : user_by_email s organization email ≡ ok u
  pub has_password : verify_password sv.crypto u.password_hash password ≡ ok true
  pub has_code :
      (secret : Bytes) × (decrypt_totp_secret sv.crypto u.totp_secret_encrypted
          sv.totp_encryption_key
        ≡ ok secret)
      × IsCode sv.crypto secret code now

or_invalid_ok : {A : Type 0} (r : Result Error A) (a : A) → or_invalid r ≡ ok a → r ≡ ok a
or_invalid_ok (ok b) a e = e
or_invalid_ok (err x) a e = cc

-- What is known of a user who has passed the first test.
abbrev Passed : Service → MemoryStore → String → String → String → User → Type 0
Passed sv s organization email password u =
    (user_by_email s organization email ≡ ok u)
    × (verify_password sv.crypto u.password_hash password ≡ ok true)

with_password-Passed :
    (sv : Service) (s : MemoryStore) (organization email password : String) (u : User)
    → (with_password sv organization email password s).1 ≡ ok u
    → Passed sv s organization email password u
unfolding with_password
with_password-Passed sv s organization email password u e =
    found (or_invalid (user_by_email s organization email)) refl e
  where
    verified :
        (user : User) (r : Result Error Bool)
        → (resume r (λ b. refuse (not b) invalid_credentials >> pure user) s).1 ≡ ok u
        → (r ≡ ok true) × (user ≡ u)
    verified user (ok true) e = (refl, ground (arith, e))
    verified user (ok false) e = absurd (let b = e in cc)
    verified user (err x) e = absurd (let b = e in cc)

    found :
        (r : Result Error User)
        → or_invalid (user_by_email s organization email) ≡ r
        → (resume r
            (λ user.
              lift (or_invalid (verify_password sv.crypto user.password_hash password)) >>= λ b.
              refuse (not b) invalid_credentials >> pure user)
            s).1
          ≡ ok u
        → Passed sv s organization email password u
    found (ok user) h e =
        let (t, same) =
          verified user (or_invalid (verify_password sv.crypto user.password_hash password)) e in
        (
          or_invalid_ok (user_by_email s organization email) u (rw (sym same) h),
          or_invalid_ok (verify_password sv.crypto u.password_hash password) true (rw (sym same) t),
        )
    found (err x) h e = absurd (let b = e in cc)

with_code-IsChecked :
    (sv : Service) (s : MemoryStore) (organization email password code : String) (now : Time)
    (user u : User) (r : Result Error Bytes)
    → IsRecent now
    → 0 < counter_at now
    → Passed sv s organization email password user
    → or_invalid (decrypt_totp_secret sv.crypto user.totp_secret_encrypted sv.totp_encryption_key)
      ≡ r
    → (t : MemoryStore)
    → (resume r
        (λ secret.
          refuse (not (verify_totp_code sv.crypto secret code now)) invalid_totp_code >> pure user)
        t).1
      ≡ ok u
    → IsChecked sv s organization email password code now u
with_code-IsChecked sv s organization email password code now user u (err x) recent late passed d t
      e =
    absurd (let b = e in cc)
with_code-IsChecked sv s organization email password code now user u (ok secret) recent late passed
      d t e =
    elim (Bool-cases (verify_totp_code sv.crypto secret code now)) [
      | inl y ↦
          let same : user ≡ u = ground (arith, y, e) in
          rw (sym same) (record {
            stored = passed.0;
            has_password = passed.1;
            has_code = (
              secret,
              or_invalid_ok
                  (decrypt_totp_secret sv.crypto user.totp_secret_encrypted sv.totp_encryption_key)
                  secret d,
              verify_totp_code-IsCode sv.crypto secret code now recent late y,
            );
          })
      | inr n ↦ absurd (ground (arith, n, e))
    ]

-- A login with a password and a code returns only a user who is stored under the address, whose stored
-- hash verifies the password, and whose secret makes the code in the thirty seconds' step of the instant
-- or in one next to it; the instant is later than the first step of 1970.
pub verify_credentials-IsChecked :
    (sv : Service) (s : MemoryStore) (organization email password code : String) (now : Time)
    (u : User)
    → IsRecent now
    → 0 < counter_at now
    → (verify_credentials sv organization email password code now s).1 ≡ ok u
    → IsChecked sv s organization email password code now u
unfolding verify_credentials
verify_credentials-IsChecked sv s organization email password code now u recent late e =
    go (with_password sv organization email password s).0
      (with_password sv organization email password s).1 refl e
  where
    go :
        (t : MemoryStore) (r : Result Error User)
        → (with_password sv organization email password s).1 ≡ r
        → (resume r
            (λ user.
              lift (
                or_invalid
                  (decrypt_totp_secret sv.crypto user.totp_secret_encrypted sv.totp_encryption_key))
              >>= λ secret.
                  refuse (not (verify_totp_code sv.crypto secret code now)) invalid_totp_code
                  >> pure user)
            t).1
          ≡ ok u
        → IsChecked sv s organization email password code now u
    go t (ok user) h e =
        with_code-IsChecked sv s organization email password code now user u
          (or_invalid
            (decrypt_totp_secret sv.crypto user.totp_secret_encrypted sv.totp_encryption_key))
          recent late (with_password-Passed sv s organization email password user h) refl t e
    go t (err x) h e = absurd (let b = e in cc)
