-- ===== src/Base/Assoc.antt =====
-- Go's maps as association lists. A `range` over a map visits its entries in the list's order;
-- statements range over all lists, so over every order that Go may choose.
pub mod Unique
pub mod Joined
use mathlib.Core.Path.{◌≡◌, refl}
use mathlib.Core.Option.{Option, none, some}
use mathlib.Core.List.{List, [], ◌∷◌}
use native.Mathlib.Omega.{arith}
use bazusop.Base.Tests.{if◌then◌else◌}
use bazusop.Base.Equal.{Comparable, ◌==◌, ==_refl, ==_false}

abbrev pub Map : Type 0 → Type 0 → Type 0
Map K V = List (K × V)

module _ {K V : Type 0} ⦃e : Comparable K⦄ where
  -- v, ok := m[k]
  unfoldable pub lookup : K → Map K V → Option V
  lookup k [] = none
  lookup k (entry ∷ m) = let rest = lookup k m in if entry.0 == k then some entry.1 else rest

  -- m[k] = v
  unfoldable pub insert : K → V → Map K V → Map K V
  insert k v [] = (k, v) ∷ []
  insert k v (entry ∷ m) =
      let rest = insert k v m in if entry.0 == k then (k, v) ∷ m else entry ∷ rest

  -- delete(m, k)
  unfoldable pub delete : K → Map K V → Map K V
  delete k [] = []
  delete k (entry ∷ m) = let rest = delete k m in if entry.0 == k then rest else entry ∷ rest

  pub lookup-insert :
      (m : Map K V) (at : K) (v : V) (k : K)
      → lookup k (insert at v m) ≡ (if at == k then some v else lookup k m)
  unfolding insert lookup
  lookup-insert [] at v k = refl
  lookup-insert (x ∷ m) at v k =
      ground (arith, lookup-insert m at v k, e.same_iff x.0 at, e.same_iff at k, e.same_iff x.0 k)

  pub lookup-insert_self : (k : K) (v : V) (m : Map K V) → lookup k (insert k v m) ≡ some v
  lookup-insert_self k v m = rw (lookup-insert m k v k, ==_refl k)

  pub lookup-insert_other :
      (m : Map K V) (at : K) (v : V) (k : K) → ¬ (at ≡ k) → lookup k (insert at v m) ≡ lookup k m
  lookup-insert_other m at v k n = rw (lookup-insert m at v k, ==_false at k n) refl

  pub lookup-delete :
      (m : Map K V) (at k : K) → lookup k (delete at m) ≡ (if at == k then none else lookup k m)
  unfolding delete lookup
  lookup-delete [] at k = ground arith
  lookup-delete (x ∷ m) at k =
      ground (arith, lookup-delete m at k, e.same_iff x.0 at, e.same_iff at k, e.same_iff x.0 k)

-- `for _, v := range m`.
abbrev pub values : {K V : Type 0} → Map K V → List V
values [] = []
values ((k, v) ∷ m) = v ∷ values m

-- A loop that writes back to the entries that it visits.
unfoldable pub map_values : {K V : Type 0} → (V → V) → Map K V → Map K V
map_values f [] = []
map_values f ((k, v) ∷ m) = (k, f v) ∷ map_values f m

abbrev pub option_map : {A B : Type 0} → (A → B) → Option A → Option B
option_map f none = none
option_map f (some a) = some (f a)

pub lookup-map_values :
    {K V : Type 0} ⦃e : Comparable K⦄ (f : V → V) (k : K) (m : Map K V)
    → lookup k (map_values f m) ≡ option_map f (lookup k m)
unfolding lookup map_values
lookup-map_values f k [] = refl
lookup-map_values f k ((j, v) ∷ m) = ground (arith, lookup-map_values f k m)
