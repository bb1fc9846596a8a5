-- ===== src/Identity/Window.antt =====
-- Which one-time codes are accepted.
use bazusop.Base.{
  ℕ, ◌+◌, ◌-◌, ◌*◌, ◌/◌, ◌%◌, ◌^◌, ◌≤◌, ◌<◌, ◌≡◌, refl, sym, String, Bool, true, [], ◌∷◌, ◌==◌,
  string_comparable, nat_comparable, ==_refl, eq_iff, arith, Time, second, any, ◌⊎◌, inl, inr,
}
use bazusop.Identity.{Bytes}
use bazusop.Identity.Random.{Crypto}
use bazusop.Identity.Totp.{
  totp_step, unix_epoch, unix_seconds, counter_at, hotp_code, generate_totp_code, candidates,
  verify_totp_code,
}

-- Since 1970, and before Go's int64 of seconds ends.
abbrev pub IsRecent : Time → Type 0
IsRecent at = (unix_epoch * second ≤ at) × (at < (unix_epoch + 2 ^ 63) * second)

unix_seconds-recent : (at : Time) → IsRecent at → unix_seconds at ≡ at / second - unix_epoch
unfolding unix_seconds
unix_seconds-recent at (low, high) =
    let a : unix_epoch ≤ at / second = omega arith in
    let b : at / second < unix_epoch + 2 ^ 63 = omega arith in omega arith

-- The counters of two instants that are a step apart at most.
counter_at-near :
    (sent at : Time)
    → IsRecent sent
    → IsRecent at
    → sent ≤ at + totp_step
    → at ≤ sent + totp_step
    → (counter_at sent + 1 ≡ counter_at at)
      ⊎ ((counter_at sent ≡ counter_at at) ⊎ (counter_at sent ≡ counter_at at + 1))
unfolding counter_at
counter_at-near sent at p q h k =
    rw (unix_seconds-recent sent p, unix_seconds-recent at q)
      (near (sent / second - unix_epoch) (at / second - unix_epoch) (omega arith) (omega arith))
  where
    near :
        (m n : ℕ)
        → m ≤ n + 30
        → n ≤ m + 30
        → (m / 30 + 1 ≡ n / 30) ⊎ ((m / 30 ≡ n / 30) ⊎ (m / 30 ≡ n / 30 + 1))
    near m n h k = ground arith

counter_at-bound : (at : Time) → IsRecent at → counter_at at + 1 < 2 ^ 63
unfolding counter_at
counter_at-bound at p = rw (unix_seconds-recent at p) (bound (at / second) (omega arith))
  where
    bound : (n : ℕ) → n < unix_epoch + 2 ^ 63 → (n - unix_epoch) / 30 + 1 < 2 ^ 63
    bound n h = omega arith

-- One of the three counters passes the test.
any-candidates :
    (p : ℕ → Bool) (m n : ℕ)
    → n + 1 < 2 ^ 63
    → (m + 1 ≡ n) ⊎ ((m ≡ n) ⊎ (m ≡ n + 1))
    → p m ≡ true
    → any p (candidates n) ≡ true
any-candidates p m n b (inl e) t =
    let before : (n + (2 ^ 64 - 1)) % 2 ^ 64 ≡ m = omega arith in rw (before, t) refl
any-candidates p m n b (inr (inl e)) t = ground (arith, sym e)
any-candidates p m n b (inr (inr e)) t =
    let next : (n + 1) % 2 ^ 64 ≡ m = omega arith in rw (next, t) (ground arith)

-- From 1970 on, a code that was made at one instant is accepted at every instant that is no more than
-- thirty seconds from it, before or after.
pub verify_totp_code-generate_totp_code :
    (c : Crypto) (secret : Bytes) (sent at : Time)
    → IsRecent sent
    → IsRecent at
    → sent ≤ at + totp_step
    → at ≤ sent + totp_step
    → verify_totp_code c secret (generate_totp_code c secret sent) at ≡ true
unfolding verify_totp_code generate_totp_code
verify_totp_code-generate_totp_code c secret sent at p q h k =
    any-candidates (λ n. hotp_code c secret n == hotp_code c secret (counter_at sent))
      (counter_at sent) (counter_at at) (counter_at-bound at q) (counter_at-near sent at p q h k)
      (==_refl (hotp_code c secret (counter_at sent)))

-- The code is that of the counter at the instant or of one of its neighbours.
abbrev pub IsCode : Crypto → Bytes → String → Time → Type 0
IsCode c secret code at =
    (n : ℕ) × ((n + 1 ≡ counter_at at) ⊎ ((n ≡ counter_at at) ⊎ (n ≡ counter_at at + 1)))
    × (hotp_code c secret n ≡ code)

any_three :
    (p : ℕ → Bool) (x y z : ℕ)
    → any p (x ∷ y ∷ z ∷ []) ≡ true
    → (p x ≡ true) ⊎ ((p y ≡ true) ⊎ (p z ≡ true))
any_three p x y z h = ground arith

-- The counter of the code, as it is written without wrapping around.
candidate-near :
    (p : ℕ → Bool) (n : ℕ)
    → n + 1 < 2 ^ 63
    → 0 < n
    → any p (candidates n) ≡ true
    → (m : ℕ) × ((m + 1 ≡ n) ⊎ ((m ≡ n) ⊎ (m ≡ n + 1))) × (p m ≡ true)
candidate-near p n b pos h =
    let before : (n + (2 ^ 64 - 1)) % 2 ^ 64 ≡ n - 1 = omega arith in
    let next : (n + 1) % 2 ^ 64 ≡ n + 1 = omega arith in
    elim (any_three p (n - 1) n (n + 1) (rw (before, next) at h)) [
      | inl t ↦ (n - 1, inl (omega arith), t)
      | inr (inl t) ↦ (n, inr (inl refl), t)
      | inr (inr t) ↦ (n + 1, inr (inr refl), t)
    ]

-- From the second step of 1970 on, an accepted code is the one of the step of the instant or of a step
-- next to it.
pub verify_totp_code-IsCode :
    (c : Crypto) (secret : Bytes) (code : String) (at : Time)
    → IsRecent at
    → 0 < counter_at at
    → verify_totp_code c secret code at ≡ true
    → IsCode c secret code at
unfolding verify_totp_code
verify_totp_code-IsCode c secret code at r pos h =
    let (n, near, t) =
      candidate-near (λ candidate. hotp_code c secret candidate == code) (counter_at at)
        (counter_at-bound at r) pos h in
    (n, near, (eq_iff (hotp_code c secret n) code).0 t)
