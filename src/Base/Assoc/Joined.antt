-- ===== src/Base/Assoc/Joined.antt =====
-- Two maps under the same keys, related entry by entry.
use mathlib.Core.Path.{◌≡◌, sym, ◌∙◌, subst}
use mathlib.Core.Logic.{inl, inr}
use mathlib.Core.Option.{Option, some, some-injective}
use bazusop.Base.Tests.{Bool-cases}
use bazusop.Base.Equal.{Comparable, ◌==◌}
use bazusop.Base.Assoc.{Map, lookup, insert, lookup-insert}

module _ {K V W : Type 0} ⦃e : Comparable K⦄ (R : V → Option W → Type 0) where
  -- Every value of the first map is related to what the second map holds under its key.
  abbrev pub Joined : Map K V → Map K W → Type 0
  Joined m n = (k : K) (v : V) → lookup k m ≡ some v → R v (lookup k n)

  pub insert-Joined :
      (k : K) (v : V) (w : W) (m : Map K V) (n : Map K W)
      → Joined m n
      → R v (some w)
      → Joined (insert k v m) (insert k w n)
  insert-Joined k v w m n joined r j u h = rw (lookup-insert n k w j) (
      let h' = sym (lookup-insert m k v j) ∙ h in
      elim (Bool-cases (k == j)) [
        | inl t ↦ rw t (subst (λ x. R x (some w)) (some-injective _ _ (rw t at h')) r)
        | inr f ↦ rw f (joined j u (rw f at h'))
      ])
