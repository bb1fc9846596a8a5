-- ===== src/Authorization/Keys.antt =====
-- The keys of memberships tell users and sites apart.
use bazusop.Base.{ℕ, Option, none, some, String, false, ◌≡◌, refl, ap, contains_nul, arith}
use Prim.Native.Char.{Char, code}
use bazusop.Authorization.Store.{append, membership_key}

abbrev rest_of : String → String
rest_of String.[] = String.[]
rest_of (String.◌∷◌ c s) = s

abbrev first_code : String → ℕ
first_code String.[] = 1
first_code (String.◌∷◌ c s) = code c

abbrev first_of : String → Option Char
first_of String.[] = none
first_of (String.◌∷◌ c s) = some c

-- Texts without a NUL are told apart from what follows their first NUL.
append_injective :
    (u v s t : String)
    → contains_nul u ≡ false
    → contains_nul v ≡ false
    → append u (append "\0" s) ≡ append v (append "\0" t)
    → (u ≡ v) × (s ≡ t)
unfolding append contains_nul
append_injective String.[] String.[] s t hu hv e = (refl, ap rest_of e)
append_injective String.[] (String.◌∷◌ d v) s t hu hv e =
    absurd (let z = ap first_code e in ground arith)
append_injective (String.◌∷◌ c u) String.[] s t hu hv e =
    absurd (let z = ap first_code e in ground arith)
append_injective (String.◌∷◌ c u) (String.◌∷◌ d v) s t hu hv e =
    let (p, q) = append_injective u v s t (ground arith) (ground arith) (ap rest_of e) in
    let z = ap first_of e in (cc, q)

-- Two keys are the same only if the users and the sites are.
pub membership_key-injective :
    (u v s t : String)
    → contains_nul u ≡ false
    → contains_nul v ≡ false
    → membership_key u s ≡ membership_key v t
    → (u ≡ v) × (s ≡ t)
unfolding membership_key
membership_key-injective u v s t hu hv e = append_injective u v s t hu hv e
