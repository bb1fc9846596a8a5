-- ===== src/Base/Bytes.antt =====
-- UTF-8: the bytes of a text, what utf8.ValidString accepts, and truncateUTF8 of
-- internal/agent/log_collector.go on bytes.
pub mod Characters
use Prim.Native.Nat.{ℕ, zero, suc, ◌+◌, ◌-◌, ◌*◌, ◌/◌, ◌%◌, ◌≤◌, ◌<◌, compare, Ordering}
use Prim.Native.Char.{Char, char, code, len_utf8, len_utf8_def, width, IsScalar}
use Prim.Native.String.{String, len}
use mathlib.Core.Path.{◌≡◌, refl, sym, ◌∙◌}
use mathlib.Core.Logic.{inl, inr, ◌⊎◌}
use mathlib.Core.Bool.{Bool, true, false, ◌&&◌}
use mathlib.Core.List.{List, [], ◌∷◌, ◌++◌}
use native.Mathlib.Omega.{arith}
use bazusop.Base.Tests.{ltb, leb, if◌then◌else◌, Bool-cases}
use bazusop.Base.Lists.{take, length}

-- A character in UTF-8.
abbrev pub encode : ℕ → List ℕ
encode n =
    if ltb n 128
    then n ∷ []
    else if ltb n 2048
    then (192 + n / 64) ∷ (128 + n % 64) ∷ []
    else if ltb n 65536
    then (224 + n / 4096) ∷ (128 + n / 64 % 64) ∷ (128 + n % 64) ∷ []
    else (240 + n / 262144) ∷ (128 + n / 4096 % 64) ∷ (128 + n / 64 % 64) ∷ (128 + n % 64) ∷ []

-- []byte(s).
unfoldable pub utf8 : String → List ℕ
utf8 String.[] = []
utf8 (String.◌∷◌ c s) = encode (code c) ++ utf8 s

-- What a first byte asks for: whether it is one, how many bytes follow, and the bounds of the next.
pub record Lead : Type 0 where
  pub starts : Bool
  pub more : ℕ
  pub low : ℕ
  pub high : ℕ

abbrev pub lead_of : Bool → ℕ → ℕ → ℕ → Lead
lead_of starts more low high = record { starts = starts; more = more; low = low; high = high }

abbrev pub lead : ℕ → Lead
lead b =
    if ltb b 128
    then lead_of true 0 128 191
    else if ltb b 194
    then lead_of false 0 128 191
    else if ltb b 224
    then lead_of true 1 128 191
    else if ltb b 225
    then lead_of true 2 160 191
    else if ltb b 237
    then lead_of true 2 128 191
    else if ltb b 238
    then lead_of true 2 128 159
    else if ltb b 240
    then lead_of true 2 128 191
    else if ltb b 241
    then lead_of true 3 144 191
    else if ltb b 244
    then lead_of true 3 128 191
    else if ltb b 245
    then lead_of true 3 128 143
    else lead_of false 0 128 191

-- Whether the bytes are valid, where `more` bytes of a character are still to come, the next within bounds.
unfoldable pub accepts : ℕ → ℕ → ℕ → List ℕ → Bool
accepts zero low high [] = true
accepts (suc more) low high [] = false
accepts zero low high (b ∷ bs) =
    let l = lead b in let rest = accepts l.more l.low l.high bs in l.starts && rest
accepts (suc more) low high (b ∷ bs) =
    let rest = accepts more 128 191 bs in leb low b && leb b high && rest

-- utf8.ValidString.
abbrev pub valid : List ℕ → Bool
valid bs = accepts 0 128 191 bs

-- value[:n], and the loop that drops its last byte until it is valid.
unfoldable pub drop_until_valid : ℕ → List ℕ → List ℕ
unfolding accepts
drop_until_valid zero bs = []
drop_until_valid (suc n) bs =
    let rest = drop_until_valid n bs in if valid (take (suc n) bs) then take (suc n) bs else rest

unfoldable pub truncate_bytes : List ℕ → ℕ → List ℕ
unfolding drop_until_valid
truncate_bytes value limit =
    if leb (length value) limit then value else drop_until_valid limit value
