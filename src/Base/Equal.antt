-- ===== src/Base/Equal.antt =====
-- Equality tests as an interface: Go's `==` on comparable types.
use Prim.Native.Nat.{ℕ}
use Prim.Native.String.{String}
use text.Mathlib.Text.{◌==◌ as str_eq}
use text.Mathlib.TextEquality.{eq_iff}
use mathlib.Core.Path.{◌≡◌, refl}
use mathlib.Core.Logic.{◌↔◌, ◌⊎◌, inl, inr}
use mathlib.Core.Bool.{Bool, true, false}
use native.Mathlib.Omega.{arith}
use bazusop.Base.Tests.{nat_eqb, nat_eqb_iff, Bool-cases}

-- A type with Go's `==`, which tells exactly the equal values.
pub record Comparable {ℓ} (A : Type ℓ) : Type ℓ where
  pub same : A → A → Bool
  pub same_iff : (x y : A) → (same x y ≡ true) ↔ (x ≡ y)

module _ {ℓ} {A : Type ℓ} ⦃c : Comparable A⦄ where
  infix 50 ◌==◌
  abbrev pub ◌==◌ : A → A → Bool
  x == y = c.same x y

  pub ==_refl : (a : A) → (a == a) ≡ true
  ==_refl a = (c.same_iff a a).1 refl

  pub ==_false : (a b : A) → ¬ (a ≡ b) → (a == b) ≡ false
  ==_false a b n = ground (arith, c.same_iff a b)

  -- To split on a test and keep what either answer means.
  pub ==_cases : (a b : A) → (((a == b) ≡ true) × (a ≡ b)) ⊎ (((a == b) ≡ false) × ¬ (a ≡ b))
  ==_cases a b = elim (Bool-cases (a == b)) [
    | inl t ↦ inl (t, (c.same_iff a b).0 t)
    | inr f ↦ inr (f, λ p. ground (arith, (c.same_iff a b).1 p))
  ]

instance abbrev pub string_comparable : Comparable String
string_comparable = record { same_iff = eq_iff; same = str_eq }

instance abbrev pub nat_comparable : Comparable ℕ
nat_comparable = record { same_iff = nat_eqb_iff; same = nat_eqb }
