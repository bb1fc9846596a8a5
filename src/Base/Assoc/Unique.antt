-- ===== src/Base/Assoc/Unique.antt =====
-- Maps whose keys are distinct, as Go's are, and how many of their values pass a test.
use Prim.Native.Nat.{ℕ, ◌+◌}
use mathlib.Core.Path.{◌≡◌, refl}
use mathlib.Core.Bool.{Bool}
use mathlib.Core.Option.{Option, none, some}
use mathlib.Core.List.{[], ◌∷◌}
use native.Mathlib.Omega.{arith}
use bazusop.Base.Tests.{if◌then◌else◌}
use bazusop.Base.Equal.{Comparable}
use bazusop.Base.Lists.{All, All-map, filter, length}
use bazusop.Base.Assoc.{Map, lookup, insert, values, lookup-insert}

abbrev pub weight : {V : Type 0} → (V → Bool) → Option V → ℕ
weight p none = 0
weight p (some v) = if p v then 1 else 0

module _ {K V : Type 0} ⦃e : Comparable K⦄ where
  abbrev pub IsUnique : Map K V → Type 0
  IsUnique [] = Unit
  IsUnique ((k, v) ∷ m) = (lookup k m ≡ none) × IsUnique m

  pub insert-IsUnique : (k : K) (v : V) (m : Map K V) → IsUnique m → IsUnique (insert k v m)
  unfolding insert lookup
  insert-IsUnique k v [] h = (refl, tt)
  insert-IsUnique k v ((j, w) ∷ m) h =
      ground (arith, insert-IsUnique k v m, lookup-insert m k v j, e.same_iff j k, e.same_iff k j)

  pub All-lookup :
      (P : K → V → Type 0) (k : K) (v : V) (m : Map K V)
      → All (λ (entry : K × V). P entry.0 entry.1) m
      → lookup k m ≡ some v
      → P k v
  unfolding lookup
  All-lookup P k v [] h l = cc
  All-lookup P k v ((j, w) ∷ m) h l = ground (arith, All-lookup P k v m h.1, e.same_iff j k)

  pub All-insert :
      (P : K → V → Type 0) (k : K) (v : V) (m : Map K V)
      → All (λ (entry : K × V). P entry.0 entry.1) m
      → P k v
      → All (λ (entry : K × V). P entry.0 entry.1) (insert k v m)
  unfolding insert
  All-insert P k v [] h p = (p, tt)
  All-insert P k v ((j, w) ∷ m) h p = ground (arith, All-insert P k v m h.1 p)

  -- Every value that a `range` visits is found again under a key that determines it.
  pub values-lookup :
      (key : V → K) (m : Map K V)
      → IsUnique m
      → All (λ (entry : K × V). key entry.1 ≡ entry.0) m
      → All (λ (v : V). lookup (key v) m ≡ some v) (values m)
  unfolding lookup
  values-lookup key [] u h = tt
  values-lookup key ((k, v) ∷ m) u h = (
    ground (arith, e.same_iff k (key v)),
    All-map (λ w q. ground (arith, e.same_iff k (key w))) (values m) (values-lookup key m u.1 h.1),
  )

  abbrev pub count : (V → Bool) → Map K V → ℕ
  count p m = length (filter p (values m))

  -- A write replaces the count of what stood there.
  pub count-insert :
      (p : V → Bool) (k : K) (v : V) (m : Map K V)
      → count p (insert k v m) + weight p (lookup k m) ≡ count p m + weight p (some v)
  unfolding insert lookup
  count-insert p k v [] = ground arith
  count-insert p k v ((j, w) ∷ m) = ground (arith, count-insert p k v m)
