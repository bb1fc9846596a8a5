-- ===== src/Base/Trim.antt =====
-- What strings.TrimSpace and truncateUTF8 leave of a text.
use Prim.Native.Nat.{ℕ, ◌≤◌, Ordering, compare}
use Prim.Native.Char.{Char, code, len_utf8, len_utf8_def, width}
use Prim.Native.String.{String, len}
use Prim.Native.String.len
use mathlib.Core.Path.{◌≡◌, refl}
use mathlib.Core.Logic.{◌⊎◌, inl, inr}
use mathlib.Core.Bool.{false}
use native.Mathlib.Omega.{arith}
use bazusop.Base.Tests.{leb, Bool-cases}
use bazusop.Base.Texts.{is_space, trim_left, trim_right, trim_space}
use bazusop.Base.Utf8.{fit, truncate_utf8}

-- The text has a first character, and that is no space.
abbrev pub IsOpen : String → Type 0
IsOpen String.[] = ⊥
IsOpen (String.◌∷◌ c s) = is_space (code c) ≡ false

trim_left-IsOpen : (s : String) → (trim_left s ≡ "") ⊎ IsOpen (trim_left s)
unfolding trim_left
trim_left-IsOpen String.[] = inl refl
trim_left-IsOpen (String.◌∷◌ c s) = elim (Bool-cases (is_space (code c))) [
  | inl t ↦ rw t (trim_left-IsOpen s)
  | inr f ↦ rw f (inr f)
]

IsOpen-trim_left : (s : String) → IsOpen s → trim_left s ≡ s
unfolding trim_left
IsOpen-trim_left String.[] h = absurd h
IsOpen-trim_left (String.◌∷◌ c s) h = rw h refl

trim_right-IsOpen : (s : String) → IsOpen s → IsOpen (trim_right s)
unfolding trim_right
trim_right-IsOpen String.[] h = absurd h
trim_right-IsOpen (String.◌∷◌ c s) h = rw h (ground (arith))

len-trim_right : (s : String) → len (trim_right s) ≤ len s
unfolding trim_right
len-trim_right String.[] = omega arith
len-trim_right (String.◌∷◌ c s) =
    ground (arith, len.cons c s, len.cons c (trim_right s), len.nil, len-trim_right s)

len-trim_left : (s : String) → len (trim_left s) ≤ len s
unfolding trim_left
len-trim_left String.[] = omega arith
len-trim_left (String.◌∷◌ c s) = ground (arith, len.cons c s, len-trim_left s)

pub len-trim_space : (s : String) → len (trim_space s) ≤ len s
unfolding trim_space
len-trim_space s = omega (arith, len-trim_right (trim_left s), len-trim_left s)

width_le : (a b c : Ordering) → width a b c ≤ 4
width_le Ordering.lt _ _ = omega arith
width_le Ordering.eq Ordering.lt _ = omega arith
width_le Ordering.eq Ordering.eq Ordering.lt = omega arith
width_le Ordering.eq Ordering.eq Ordering.eq = omega arith
width_le Ordering.eq Ordering.eq Ordering.gt = omega arith
width_le Ordering.eq Ordering.gt Ordering.lt = omega arith
width_le Ordering.eq Ordering.gt Ordering.eq = omega arith
width_le Ordering.eq Ordering.gt Ordering.gt = omega arith
width_le Ordering.gt Ordering.lt _ = omega arith
width_le Ordering.gt Ordering.eq Ordering.lt = omega arith
width_le Ordering.gt Ordering.eq Ordering.eq = omega arith
width_le Ordering.gt Ordering.eq Ordering.gt = omega arith
width_le Ordering.gt Ordering.gt Ordering.lt = omega arith
width_le Ordering.gt Ordering.gt Ordering.eq = omega arith
width_le Ordering.gt Ordering.gt Ordering.gt = omega arith

len_utf8_le : (c : Char) → len_utf8 c ≤ 4
len_utf8_le c =
    let widths : len_utf8 c
        ≡ width (compare (code c) 128) (compare (code c) 2048) (compare (code c) 65536) =
      len_utf8_def c in
    rw widths (width_le (compare (code c) 128) (compare (code c) 2048) (compare (code c) 65536))

fit-IsOpen : (s : String) (limit : ℕ) → 4 ≤ limit → IsOpen s → IsOpen (fit s limit)
unfolding fit
fit-IsOpen String.[] limit h o = absurd o
fit-IsOpen (String.◌∷◌ c s) limit h o = elim (Bool-cases (leb (len_utf8 c) limit)) [
  | inl t ↦ rw t o
  | inr f ↦ ground (arith, len_utf8_le c)
]

pub truncate_utf8-IsOpen :
    (s : String) (limit : ℕ) → 4 ≤ limit → IsOpen s → IsOpen (truncate_utf8 s limit)
unfolding truncate_utf8
truncate_utf8-IsOpen s limit h o = elim (Bool-cases (leb (len s) limit)) [
  | inl t ↦ rw t o
  | inr f ↦ rw f (fit-IsOpen s limit h o)
]

pub trim_space-IsOpen : (s : String) → (trim_space s ≡ "") ⊎ IsOpen (trim_space s)
unfolding trim_space
trim_space-IsOpen s = elim (trim_left-IsOpen s) [
  | inl e ↦ inl (empty s e)
  | inr o ↦ inr (trim_right-IsOpen (trim_left s) o)
]
  where
    empty : (s : String) → trim_left s ≡ "" → trim_right (trim_left s) ≡ ""
    empty s e = rw e refl

pub IsOpen-trim_space : (s : String) → IsOpen s → IsOpen (trim_space s)
unfolding trim_space
IsOpen-trim_space s o = rw (IsOpen-trim_left s o) (trim_right-IsOpen s o)
