-- ===== src/Base/Ordered.antt =====
-- What sorting and cutting keep of a list, and the order that sorting by an instant gives it.
use Prim.Native.Nat.{ℕ, zero, suc, ◌-◌, ◌≤◌}
use mathlib.Core.Path.{◌≡◌}
use mathlib.Core.Logic.{inl, inr}
use mathlib.Core.Bool.{Bool, true, false}
use mathlib.Core.List.{List, [], ◌∷◌}
use native.Mathlib.Omega.{arith}
use bazusop.Base.Tests.{Bool-cases}
use bazusop.Base.Lists.{All, All-map, length, drop}
use bazusop.Base.Sort.{insert_by, sort_by}

module _ {A : Type 0} (P : A → Type 0) (less : A → A → Bool) where
  pub All-insert_by : (x : A) (ys : List A) → P x → All P ys → All P (insert_by less x ys)
  unfolding insert_by
  All-insert_by x [] p h = (p, tt)
  All-insert_by x (y ∷ ys) p h = ground (arith, All-insert_by x ys p h.1)

  pub All-sort_by : (xs : List A) → All P xs → All P (sort_by less xs)
  unfolding sort_by
  All-sort_by [] h = tt
  All-sort_by (x ∷ xs) h = All-insert_by x (sort_by less xs) h.0 (All-sort_by xs h.1)

pub All-drop : {A : Type 0} (P : A → Type 0) (n : ℕ) (xs : List A) → All P xs → All P (drop n xs)
All-drop P n [] h = tt
All-drop P zero (x ∷ xs) h = h
All-drop P (suc n) (x ∷ xs) h = All-drop P n xs h.1

pub length-drop : {A : Type 0} (n : ℕ) (xs : List A) → length (drop n xs) ≡ length xs - n
length-drop n [] = omega arith
length-drop zero (x ∷ xs) = omega arith
length-drop (suc n) (x ∷ xs) = omega (arith, length-drop n xs)

module _ {A : Type 0} (at : A → ℕ) where
  -- Each comes no later than those behind it.
  abbrev pub IsAscending : List A → Type 0
  IsAscending [] = Unit
  IsAscending (x ∷ xs) = All (λ y. at x ≤ at y) xs × IsAscending xs

  pub drop-IsAscending : (n : ℕ) (xs : List A) → IsAscending xs → IsAscending (drop n xs)
  drop-IsAscending n [] h = tt
  drop-IsAscending zero (x ∷ xs) h = h
  drop-IsAscending (suc n) (x ∷ xs) h = drop-IsAscending n xs h.1

  -- A comparison that goes by the instant first.
  module _ (less : A → A → Bool) (above : (y x : A) → less y x ≡ true → at y ≤ at x)
      (below : (y x : A) → less y x ≡ false → at x ≤ at y) where
    insert_by-IsAscending :
        (x : A) (ys : List A) → IsAscending ys → IsAscending (insert_by less x ys)
    unfolding insert_by
    insert_by-IsAscending x [] h = (tt, tt)
    insert_by-IsAscending x (y ∷ ys) h = elim (Bool-cases (less y x)) [
      | inl t ↦ rw t (
        All-insert_by (λ z. at y ≤ at z) less x ys (above y x t) h.0,
        insert_by-IsAscending x ys h.1,
      )
      | inr f ↦ rw f (
        (below y x f, All-map (λ z q. let first = below y x f in omega (arith, first, q)) ys h.0),
        h,
      )
    ]

    pub sort_by-IsAscending : (xs : List A) → IsAscending (sort_by less xs)
    unfolding sort_by
    sort_by-IsAscending [] = tt
    sort_by-IsAscending (x ∷ xs) =
        insert_by-IsAscending x (sort_by less xs) (sort_by-IsAscending xs)
