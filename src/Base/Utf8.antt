-- ===== src/Base/Utf8.antt =====
-- What truncateUTF8 of internal/agent/log_collector.go makes of a text, said by its characters. The loop
-- of the code, on bytes, is Base/Bytes, and Base/Truncate has that the two are the same.
use Prim.Native.Nat.{ℕ, ◌+◌, ◌-◌, ◌≤◌, ◌<◌}
use Prim.Native.Char.{len_utf8}
use Prim.Native.String.{String, len, ◌++◌ as append}
use Prim.Native.String.len
use Prim.Native.String.append as cat
use mathlib.Core.Path.{◌≡◌, refl, ap, sym, ◌∙◌}
use mathlib.Core.Logic.{inl, inr}
use native.Mathlib.Omega.{arith}
use bazusop.Base.Tests.{leb, if◌then◌else◌, Bool-cases}

-- The longest run of characters at the start that takes `limit` bytes at most.
unfoldable pub fit : String → ℕ → String
fit String.[] limit = String.[]
fit (String.◌∷◌ c s) limit =
    let rest = fit s (limit - len_utf8 c) in
    if leb (len_utf8 c) limit then String.◌∷◌ c rest else String.[]

-- The text whose bytes truncate_bytes of Base/Bytes gives.
unfoldable pub truncate_utf8 : String → ℕ → String
unfolding fit
truncate_utf8 s limit = if leb (len s) limit then s else fit s limit

-- What was cut off, and that its first character would not have fitted after `kept`.
abbrev pub TooMuch : String → ℕ → String → Type 0
TooMuch kept limit String.[] = Unit
TooMuch kept limit (String.◌∷◌ c rest) = limit < len kept + len_utf8 c

-- `kept` starts `s`, fits, and could not be longer.
abbrev pub IsLongestFit : String → ℕ → String → Type 0
IsLongestFit s limit kept =
    (rest : String) × (s ≡ append kept rest) × (len kept ≤ limit) × TooMuch kept limit rest

fit-IsLongestFit : (s : String) (limit : ℕ) → IsLongestFit s limit (fit s limit)
unfolding fit
fit-IsLongestFit String.[] limit = (String.[], refl, omega arith, tt)
fit-IsLongestFit (String.◌∷◌ c s) limit = elim (Bool-cases (leb (len_utf8 c) limit)) [
  | inr f ↦ rw f (String.◌∷◌ c s, sym (cat.nil (String.◌∷◌ c s)), omega arith, ground arith)
  | inl t ↦
      let (rest, whole, short, cut) = fit-IsLongestFit s (limit - len_utf8 c) in
      rw t (
        rest,
        ap (λ x. String.◌∷◌ c x) whole ∙ sym (cat.cons c (fit s (limit - len_utf8 c)) rest),
        ground (arith, len.cons c (fit s (limit - len_utf8 c))),
        longer rest cut,
      )
]
  where
    longer :
        (rest : String)
        → TooMuch (fit s (limit - len_utf8 c)) (limit - len_utf8 c) rest
        → TooMuch (String.◌∷◌ c (fit s (limit - len_utf8 c))) limit rest
    longer String.[] h = tt
    longer (String.◌∷◌ d rest) h = ground (arith, len.cons c (fit s (limit - len_utf8 c)))

append_nil : (s : String) → s ≡ append s String.[]
append_nil String.[] = sym (cat.nil String.[])
append_nil (String.◌∷◌ c s) = ap (λ x. String.◌∷◌ c x) (append_nil s) ∙ sym (cat.cons c s String.[])

-- A text that is cut to a limit is followed by the rest of the text in the whole one, takes no more bytes
-- than the limit, and would take more with the next character.
pub truncate_utf8-IsLongestFit :
    (s : String) (limit : ℕ) → IsLongestFit s limit (truncate_utf8 s limit)
unfolding truncate_utf8
truncate_utf8-IsLongestFit s limit = elim (Bool-cases (leb (len s) limit)) [
  | inl t ↦ rw t (String.[], append_nil s, ground arith, tt)
  | inr f ↦ rw f (fit-IsLongestFit s limit)
]
