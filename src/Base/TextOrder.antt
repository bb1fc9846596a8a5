-- ===== src/Base/TextOrder.antt =====
-- `<` on strings is a strict total order.

use Prim.Native.String.{String}
use mathlib.Core.Path.{◌≡◌, refl}
use mathlib.Core.Bool.{true, false}
use native.Mathlib.Omega.{arith}
use bazusop.Base.Texts.{string_ltb}

pub string_ltb-asymm : (s t : String) → string_ltb s t ≡ true → string_ltb t s ≡ false
unfolding string_ltb
string_ltb-asymm String.[] String.[] h = cc
string_ltb-asymm String.[] (String.◌∷◌ d t) h = refl
string_ltb-asymm (String.◌∷◌ c s) String.[] h = cc
string_ltb-asymm (String.◌∷◌ c s) (String.◌∷◌ d t) h = ground (arith, string_ltb-asymm s t)

-- What is not before `t` is not before anything that `t` is not before.
pub string_ltb-cotrans :
    (s t u : String) → string_ltb s t ≡ false → string_ltb t u ≡ false → string_ltb s u ≡ false
unfolding string_ltb
string_ltb-cotrans String.[] String.[] String.[] h k = refl
string_ltb-cotrans String.[] String.[] (String.◌∷◌ e u) h k = cc
string_ltb-cotrans String.[] (String.◌∷◌ d t) u h k = cc
string_ltb-cotrans (String.◌∷◌ c s) String.[] String.[] h k = refl
string_ltb-cotrans (String.◌∷◌ c s) String.[] (String.◌∷◌ e u) h k = cc
string_ltb-cotrans (String.◌∷◌ c s) (String.◌∷◌ d t) String.[] h k = refl
string_ltb-cotrans (String.◌∷◌ c s) (String.◌∷◌ d t) (String.◌∷◌ e u) h k =
    ground (arith, string_ltb-cotrans s t u)
