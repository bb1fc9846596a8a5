-- ===== src/Base/Truncate.antt =====
-- truncateUTF8 of internal/agent/log_collector.go on the bytes of a text.
use Prim.Native.Nat.{ℕ, zero, suc, ◌-◌, ◌≤◌, ◌<◌}
use Prim.Native.Char.{Char, char, code, len_utf8}
use Prim.Native.String.{String, len}
use Prim.Native.String.len
use mathlib.Core.Path.{◌≡◌, refl, ap, sym, ◌∙◌}
use mathlib.Core.Logic.{inl, inr}
use mathlib.Core.Bool.{true, false}
use mathlib.Core.List.{List, [], ◌∷◌, ◌++◌}
use native.Mathlib.Omega.{arith}
use bazusop.Base.Tests.{leb, Bool-cases}
use bazusop.Base.Lists.{take, length, length-append}
use bazusop.Base.Bytes.{encode, utf8, accepts, valid, drop_until_valid, truncate_bytes}
use bazusop.Base.Bytes.Characters.{
  IsCharacter, encode-IsCharacter, valid-append, valid-take, length-encode,
}
use bazusop.Base.Utf8.{fit, truncate_utf8, IsLongestFit, truncate_utf8-IsLongestFit}

character : (c : Char) → IsCharacter (encode (code c))
character (char n h) = encode-IsCharacter n h

take-append :
    (n : ℕ) (ws xs : List ℕ) → length ws ≤ n → take n (ws ++ xs) ≡ ws ++ take (n - length ws) xs
take-append n [] xs h = ap (λ k. take k xs) (omega arith)
take-append zero (w ∷ ws) xs h = absurd (omega arith)
take-append (suc n) (w ∷ ws) xs h =
    let same : n - length ws ≡ suc n - suc (length ws) = omega arith in
    ap (λ ys. w ∷ ys) (take-append n ws xs (omega arith)) ∙ ap (λ k. w ∷ (ws ++ take k xs)) same

-- The first bytes of a text that starts with a character they hold.
take_utf8 :
    (n : ℕ) (c : Char) (xs : List ℕ)
    → len_utf8 c ≤ n
    → take n (encode (code c) ++ xs) ≡ encode (code c) ++ take (n - len_utf8 c) xs
take_utf8 n c xs h =
    let size = length-encode c in
    take-append n (encode (code c)) xs (omega (arith, size, h))
    ∙ ap (λ k. encode (code c) ++ take (n - k) xs) size

short :
    (n : ℕ) (c : Char) (xs : List ℕ)
    → suc n < len_utf8 c
    → valid (take (suc n) (encode (code c) ++ xs)) ≡ false
short n c xs h =
    let size = length-encode c in
    valid-take n (encode (code c)) xs (character c) (omega (arith, size, h))

-- Valid first bytes of a text are those of the characters that fit.
valid-fit : (n : ℕ) (s : String) → valid (take n (utf8 s)) ≡ true → take n (utf8 s) ≡ utf8 (fit s n)
unfolding utf8 fit
valid-fit zero String.[] h = refl
valid-fit (suc n) String.[] h = refl
valid-fit n (String.◌∷◌ c s) h = elim (Bool-cases (leb (len_utf8 c) n)) [
  | inl t ↦
      let cut = take_utf8 n c (utf8 s) (ground arith) in
      let h' : valid (take (n - len_utf8 c) (utf8 s)) ≡ true =
        sym (valid-append (encode (code c)) (take (n - len_utf8 c) (utf8 s)) (character c))
        ∙ (λ i. valid (sym cut i))
        ∙ h in
      rw (t, cut) (ap (λ ys. encode (code c) ++ ys) (valid-fit (n - len_utf8 c) s h'))
  | inr f ↦ rw f (none_fit n h (ground arith))
]
  where
    none_fit :
        (n : ℕ)
        → valid (take n (encode (code c) ++ utf8 s)) ≡ true
        → n < len_utf8 c
        → take n (encode (code c) ++ utf8 s) ≡ []
    none_fit zero h l = refl
    none_fit (suc n) h l = absurd (let b = short n c (utf8 s) l in cc)

-- If one more byte leaves the first bytes invalid, then no more characters fit.
fit-suc : (n : ℕ) (s : String) → valid (take (suc n) (utf8 s)) ≡ false → fit s (suc n) ≡ fit s n
unfolding utf8 fit accepts
fit-suc n String.[] h = refl
fit-suc n (String.◌∷◌ c s) h = elim (Bool-cases (leb (len_utf8 c) (suc n))) [
  | inr f ↦ let g : leb (len_utf8 c) n ≡ false = ground arith in rw (f, g) refl
  | inl t ↦
      let cut = take_utf8 (suc n) c (utf8 s) (ground arith) in
      let h' : valid (take (suc n - len_utf8 c) (utf8 s)) ≡ false =
        sym (valid-append (encode (code c)) (take (suc n - len_utf8 c) (utf8 s)) (character c))
        ∙ (λ i. valid (sym cut i))
        ∙ h in
      elim (Bool-cases (leb (len_utf8 c) n)) [
        | inl y ↦
            let one_more : suc n - len_utf8 c ≡ suc (n - len_utf8 c) = ground arith in
            rw (t, y, one_more)
              (ap (λ r. String.◌∷◌ c r)
                (fit-suc (n - len_utf8 c) s ((λ i. valid (take (sym one_more i) (utf8 s))) ∙ h')))
        | inr z ↦
            let none_left : suc n - len_utf8 c ≡ 0 = ground arith in
            absurd (let b = (λ i. valid (take (sym none_left i) (utf8 s))) ∙ h' in cc)
      ]
]

nothing_fits : (s : String) → fit s 0 ≡ String.[]
unfolding fit
nothing_fits String.[] = refl
nothing_fits (String.◌∷◌ c s) =
    let ch = character c in
    let size = length-encode c in
    let whole : length (encode (code c)) ≡ suc (length ch.others) = ap (λ ws. length ws) ch.parts in
    let wide : leb (len_utf8 c) 0 ≡ false =
      let one : 1 ≤ len_utf8 c = omega (arith, size, whole) in ground arith in
    rw wide refl

drop_until_valid-fit : (n : ℕ) (s : String) → drop_until_valid n (utf8 s) ≡ utf8 (fit s n)
unfolding drop_until_valid utf8
drop_until_valid-fit zero s = rw (nothing_fits s) refl
drop_until_valid-fit (suc n) s = elim (Bool-cases (valid (take (suc n) (utf8 s)))) [
  | inl t ↦ rw t (valid-fit (suc n) s t)
  | inr f ↦ rw (f, fit-suc n s f) (drop_until_valid-fit n s)
]

length-utf8 : (s : String) → length (utf8 s) ≡ len s
unfolding utf8
length-utf8 String.[] = omega arith
length-utf8 (String.◌∷◌ c s) =
    omega (
      arith,
      length-append (encode (code c)) (utf8 s),
      length-utf8 s,
      length-encode c,
      len.cons c s,
    )

-- Cutting the bytes of a text to a limit, and then dropping single bytes until the rest is valid UTF-8,
-- leaves the bytes of a text again: of one that the whole text starts with, that takes no more bytes than
-- the limit, and that would take more with the next character.
pub truncate_bytes-IsLongestFit :
    (s : String) (limit : ℕ)
    → (truncate_bytes (utf8 s) limit ≡ utf8 (truncate_utf8 s limit))
      × IsLongestFit s limit (truncate_utf8 s limit)
unfolding truncate_bytes truncate_utf8
truncate_bytes-IsLongestFit s limit = (
  rw (length-utf8 s) (elim (Bool-cases (leb (len s) limit)) [
    | inl t ↦ rw t refl
    | inr f ↦ rw f (drop_until_valid-fit limit s)
  ]),
  truncate_utf8-IsLongestFit s limit,
)
