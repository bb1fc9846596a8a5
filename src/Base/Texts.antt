-- ===== src/Base/Texts.antt =====
-- The parts of Go's `strings` that the program uses, on texts of Unicode code points.
use Prim.Native.Nat.{ℕ}
use Prim.Native.Char.{code}
use Prim.Native.String.{String}
use mathlib.Core.Bool.{Bool, true, false, ◌&&◌, ◌||◌}
use bazusop.Base.Tests.{ltb, leb, nat_eqb, if◌then◌else◌}

-- unicode.IsSpace.
abbrev pub is_space : ℕ → Bool
is_space c =
    (leb 0x09 c && leb c 0x0d)
    || nat_eqb c 0x20
    || nat_eqb c 0x85
    || nat_eqb c 0xa0
    || nat_eqb c 0x1680
    || (leb 0x2000 c && leb c 0x200a)
    || nat_eqb c 0x2028
    || nat_eqb c 0x2029
    || nat_eqb c 0x202f
    || nat_eqb c 0x205f
    || nat_eqb c 0x3000

unfoldable pub trim_left : String → String
trim_left String.[] = String.[]
trim_left (String.◌∷◌ c s) =
    let rest = trim_left s in if is_space (code c) then rest else String.◌∷◌ c s

abbrev is_nil : String → Bool
is_nil String.[] = true
is_nil (String.◌∷◌ _ _) = false

unfoldable pub trim_right : String → String
trim_right String.[] = String.[]
trim_right (String.◌∷◌ c s) =
    let rest = trim_right s in
    if is_nil rest && is_space (code c) then String.[] else String.◌∷◌ c rest

-- strings.TrimSpace.
unfoldable pub trim_space : String → String
unfolding trim_left trim_right
trim_space s = trim_right (trim_left s)

-- strings.ContainsRune(s, '\x00').
unfoldable pub contains_nul : String → Bool
contains_nul String.[] = false
contains_nul (String.◌∷◌ c s) = nat_eqb (code c) 0 || contains_nul s

-- `<` on strings: the order of code points is that of their UTF-8 bytes.
unfoldable pub string_ltb : String → String → Bool
string_ltb String.[] String.[] = false
string_ltb String.[] (String.◌∷◌ d t) = true
string_ltb (String.◌∷◌ c s) String.[] = false
string_ltb (String.◌∷◌ c s) (String.◌∷◌ d t) =
    ltb (code c) (code d) || (nat_eqb (code c) (code d) && string_ltb s t)
