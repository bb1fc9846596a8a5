-- ===== src/Base/Bytes/Characters.antt =====
-- What is valid UTF-8: every character is, and no character that is cut short.
use Prim.Native.Nat.{ℕ, zero, suc, ◌+◌, ◌/◌, ◌%◌, ◌≤◌, ◌<◌, compare, Ordering}
use Prim.Native.Char.{Char, code, len_utf8, len_utf8_def, width, IsScalar}
use mathlib.Core.Path.{◌≡◌, refl, sym, ◌∙◌}
use mathlib.Core.Logic.{inl, inr, ◌⊎◌}
use mathlib.Core.Bool.{Bool, true, false}
use mathlib.Core.List.{List, [], ◌∷◌, ◌++◌}
use native.Mathlib.Omega.{arith}
use bazusop.Base.Tests.{ltb, if◌then◌else◌, Bool-cases}
use bazusop.Base.Lists.{take, length}
use bazusop.Base.Bytes.{encode, lead, lead_of, accepts, valid}

-- What may follow a first byte: `more` bytes, the next within bounds, the others any that continue.
abbrev Follows : ℕ → ℕ → ℕ → List ℕ → Type 0
Follows zero low high [] = Unit
Follows zero low high (w ∷ ws) = ⊥
Follows (suc k) low high [] = ⊥
Follows (suc k) low high (w ∷ ws) = (low ≤ w) × (w ≤ high) × Follows k 128 191 ws

accepts-whole :
    (k low high : ℕ) (ws xs : List ℕ)
    → Follows k low high ws
    → accepts k low high (ws ++ xs) ≡ accepts 0 128 191 xs
unfolding accepts
accepts-whole zero low high [] [] h = refl
accepts-whole zero low high [] (x ∷ xs) h = refl
accepts-whole zero low high (w ∷ ws) xs h = elim h [ ]
accepts-whole (suc k) low high [] xs h = elim h [ ]
accepts-whole (suc k) low high (w ∷ ws) xs h =
    let rest = accepts-whole k 128 191 ws xs h.2 in ground arith

accepts-part :
    (k low high n : ℕ) (ws xs : List ℕ)
    → Follows k low high ws
    → n < k
    → accepts k low high (take n (ws ++ xs)) ≡ false
unfolding accepts
accepts-part zero low high n ws xs h l = absurd (omega arith)
accepts-part (suc k) low high (suc n) [] xs h l = elim h [ ]
accepts-part (suc k) low high zero ws xs h l = refl
accepts-part (suc k) low high (suc n) (w ∷ ws) xs h l =
    let rest = accepts-part k 128 191 n ws xs h.2 (omega arith) in ground arith

-- One character: its first byte starts it, and the others follow.
pub record IsCharacter (ws : List ℕ) : Type 0 where
  pub first : ℕ
  pub others : List ℕ
  pub parts : ws ≡ first ∷ others
  pub starts : (lead first).starts ≡ true
  pub follow : Follows (lead first).more (lead first).low (lead first).high others

scalar : (n : ℕ) → IsScalar n → (n < 55296) ⊎ ((57343 < n) × (n < 1114112))
scalar n h = ground arith

lead_two : (b : ℕ) → 194 ≤ b → b < 224 → lead b ≡ lead_of true 1 128 191
lead_two b h k = ground arith

lead_three :
    (b c : ℕ)
    → 224 ≤ b
    → b < 240
    → (128 ≤ c) × (c ≤ 191)
    → (b ≡ 224 → 160 ≤ c)
    → (b ≡ 237 → c ≤ 159)
    → ((lead b).starts ≡ true) × ((lead b).more ≡ 2) × ((lead b).low ≤ c) × (c ≤ (lead b).high)
lead_three b c h k w x y = ground arith

lead_four :
    (b c : ℕ)
    → 240 ≤ b
    → b < 245
    → (128 ≤ c) × (c ≤ 191)
    → (b ≡ 240 → 144 ≤ c)
    → (b ≡ 244 → c ≤ 143)
    → ((lead b).starts ≡ true) × ((lead b).more ≡ 3) × ((lead b).low ≤ c) × (c ≤ (lead b).high)
lead_four b c h k w x y = ground arith

abbrev Continues : ℕ → Type 0
Continues c = (128 ≤ c) × (c ≤ 191)

rest_of : (n : ℕ) → Continues (128 + n % 64)
rest_of n = (omega arith, omega arith)

follow_two :
    (k low high c d : ℕ)
    → k ≡ 2
    → low ≤ c
    → c ≤ high
    → Continues d
    → Follows k low high (c ∷ d ∷ [])
follow_two k low high c d e l h w = rw e (l, h, (w.0, w.1, tt))

follow_three :
    (k low high c d x : ℕ)
    → k ≡ 3
    → low ≤ c
    → c ≤ high
    → Continues d
    → Continues x
    → Follows k low high (c ∷ d ∷ x ∷ [])
follow_three k low high c d x e l h w v = rw e (l, h, (w.0, w.1, (v.0, v.1, tt)))

one : (n : ℕ) → n < 128 → IsCharacter (n ∷ [])
one n h = record {
  first = n;
  others = [];
  parts = refl;
  starts = ground arith;
  follow = let e : lead n ≡ lead_of true 0 128 191 = ground arith in rw e tt;
}

two : (n : ℕ) → 128 ≤ n → n < 2048 → IsCharacter ((192 + n / 64) ∷ (128 + n % 64) ∷ [])
two n l h =
    let e = lead_two (192 + n / 64) (omega arith) (omega arith) in
    let r = rest_of n in
    record {
      first = 192 + n / 64;
      others = (128 + n % 64) ∷ [];
      parts = refl;
      starts = rw e refl;
      follow = rw e (r.0, r.1, tt);
    }

three :
    (n : ℕ)
    → 2048 ≤ n
    → n < 65536
    → (n < 55296) ⊎ (57343 < n)
    → IsCharacter ((224 + n / 4096) ∷ (128 + n / 64 % 64) ∷ (128 + n % 64) ∷ [])
three n l h s =
    let (starts, more, low, high) =
      lead_three (224 + n / 4096) (128 + n / 64 % 64) (omega arith) (omega arith) (rest_of (n / 64))
        (λ e. omega arith) (λ e. elim s [ inl a ↦ omega arith | inr b ↦ omega arith ]) in
    record {
      first = 224 + n / 4096;
      others = (128 + n / 64 % 64) ∷ (128 + n % 64) ∷ [];
      parts = refl;
      starts = starts;
      follow =
          follow_two (lead (224 + n / 4096)).more (lead (224 + n / 4096)).low
            (lead (224 + n / 4096)).high (128 + n / 64 % 64) (128 + n % 64) more low high
            (rest_of n);
    }

four :
    (n : ℕ)
    → 65536 ≤ n
    → n < 1114112
    → IsCharacter
        ((240 + n / 262144) ∷ (128 + n / 4096 % 64) ∷ (128 + n / 64 % 64) ∷ (128 + n % 64) ∷ [])
four n l h =
    let (starts, more, low, high) =
      lead_four (240 + n / 262144) (128 + n / 4096 % 64) (omega arith) (omega arith)
        (rest_of (n / 4096)) (λ e. omega arith) (λ e. omega arith) in
    record {
      first = 240 + n / 262144;
      others = (128 + n / 4096 % 64) ∷ (128 + n / 64 % 64) ∷ (128 + n % 64) ∷ [];
      parts = refl;
      starts = starts;
      follow =
          follow_three (lead (240 + n / 262144)).more (lead (240 + n / 262144)).low
            (lead (240 + n / 262144)).high (128 + n / 4096 % 64) (128 + n / 64 % 64) (128 + n % 64)
            more low high (rest_of (n / 64)) (rest_of n);
    }

pub encode-IsCharacter : (n : ℕ) → IsScalar n → IsCharacter (encode n)
encode-IsCharacter n h =
    let s = scalar n h in
    elim (Bool-cases (ltb n 128)) [
      | inl a ↦ rw a (one n (ground arith))
      | inr a ↦ elim (Bool-cases (ltb n 2048)) [
        | inl b ↦ rw (a, b) (two n (ground arith) (ground arith))
        | inr b ↦ elim (Bool-cases (ltb n 65536)) [
          | inl c ↦
              rw (a, b, c)
                (three n (ground arith) (ground arith) (elim s [ inl x ↦ inl x | inr x ↦ inr x.0 ]))
          | inr c ↦
              rw (a, b, c) (four n (ground arith) (elim s [ inl x ↦ ground arith | inr x ↦ x.1 ]))
        ]
      ]
    ]

pub valid-append : (ws xs : List ℕ) → IsCharacter ws → valid (ws ++ xs) ≡ valid xs
unfolding accepts
valid-append ws xs h =
    let rest =
      accepts-whole (lead h.first).more (lead h.first).low (lead h.first).high h.others xs
        h.follow in
    rw (h.parts, h.starts, rest) refl

Follows-length : (k low high : ℕ) (ws : List ℕ) → Follows k low high ws → length ws ≡ k
Follows-length zero low high [] h = refl
Follows-length zero low high (w ∷ ws) h = elim h [ ]
Follows-length (suc k) low high [] h = elim h [ ]
Follows-length (suc k) low high (w ∷ ws) h = omega (arith, Follows-length k 128 191 ws h.2)

pub valid-take :
    (n : ℕ) (ws xs : List ℕ)
    → IsCharacter ws
    → suc n < length ws
    → valid (take (suc n) (ws ++ xs)) ≡ false
unfolding accepts
valid-take n ws xs h l =
    let count =
      Follows-length (lead h.first).more (lead h.first).low (lead h.first).high h.others h.follow in
    let size : length ws ≡ suc (length h.others) = rw h.parts refl in
    let part =
      accepts-part (lead h.first).more (lead h.first).low (lead h.first).high n h.others xs h.follow
        (omega (arith, count, size, l)) in
    rw (h.parts, h.starts, part) refl

encode-width :
    (n : ℕ) → length (encode n) ≡ width (compare n 128) (compare n 2048) (compare n 65536)
encode-width n = go (compare n 128) (compare n 2048) (compare n 65536)
  where
    is_less : Ordering → Bool
    is_less Ordering.lt = true
    is_less Ordering.eq = false
    is_less Ordering.gt = false

    go :
        (x y z : Ordering)
        → length (
            if is_less x
            then n ∷ []
            else if is_less y
            then (192 + n / 64) ∷ (128 + n % 64) ∷ []
            else if is_less z
            then (224 + n / 4096) ∷ (128 + n / 64 % 64) ∷ (128 + n % 64) ∷ []
            else (240 + n / 262144)
              ∷ (128 + n / 4096 % 64)
              ∷ (128 + n / 64 % 64)
              ∷ (128 + n % 64)
              ∷ [])
          ≡ width x y z
    go Ordering.lt y z = refl
    go Ordering.eq Ordering.lt z = refl
    go Ordering.eq Ordering.eq Ordering.lt = refl
    go Ordering.eq Ordering.eq Ordering.eq = refl
    go Ordering.eq Ordering.eq Ordering.gt = refl
    go Ordering.eq Ordering.gt Ordering.lt = refl
    go Ordering.eq Ordering.gt Ordering.eq = refl
    go Ordering.eq Ordering.gt Ordering.gt = refl
    go Ordering.gt Ordering.lt z = refl
    go Ordering.gt Ordering.eq Ordering.lt = refl
    go Ordering.gt Ordering.eq Ordering.eq = refl
    go Ordering.gt Ordering.eq Ordering.gt = refl
    go Ordering.gt Ordering.gt Ordering.lt = refl
    go Ordering.gt Ordering.gt Ordering.eq = refl
    go Ordering.gt Ordering.gt Ordering.gt = refl

pub length-encode : (c : Char) → length (encode (code c)) ≡ len_utf8 c
length-encode c = encode-width (code c) ∙ sym (len_utf8_def c)
