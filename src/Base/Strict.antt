-- ===== src/Base/Strict.antt =====
-- Lists in which no instant comes twice, and what sorting by an instant makes of them.
use Prim.Native.Nat.{ℕ, zero, suc, ◌≤◌, ◌<◌}
use mathlib.Core.Path.{◌≡◌}
use mathlib.Core.Logic.{◌≢◌, inl, inr}
use mathlib.Core.Bool.{Bool, true, false}
use mathlib.Core.List.{List, [], ◌∷◌}
use native.Mathlib.Omega.{arith}
use bazusop.Base.Tests.{Bool-cases}
use bazusop.Base.Lists.{All, All-map, All-filter, filter, drop}
use bazusop.Base.Ordered.{All-insert_by, All-sort_by}
use bazusop.Base.Sort.{insert_by, sort_by}

module _ {A : Type 0} (at : A → ℕ) where
  abbrev pub IsDistinct : List A → Type 0
  IsDistinct [] = Unit
  IsDistinct (x ∷ xs) = All (λ y. at y ≢ at x) xs × IsDistinct xs

  -- Each comes before those behind it.
  abbrev pub IsStrict : List A → Type 0
  IsStrict [] = Unit
  IsStrict (x ∷ xs) = All (λ y. at x < at y) xs × IsStrict xs

  pub IsStrict-IsDistinct : (xs : List A) → IsStrict xs → IsDistinct xs
  IsStrict-IsDistinct [] h = tt
  IsStrict-IsDistinct (x ∷ xs) h =
      (All-map (λ y p. omega (arith, p)) xs h.0, IsStrict-IsDistinct xs h.1)

  pub drop-IsStrict : (n : ℕ) (xs : List A) → IsStrict xs → IsStrict (drop n xs)
  drop-IsStrict n [] h = tt
  drop-IsStrict zero (x ∷ xs) h = h
  drop-IsStrict (suc n) (x ∷ xs) h = drop-IsStrict n xs h.1

  pub filter-IsStrict : (p : A → Bool) (xs : List A) → IsStrict xs → IsStrict (filter p xs)
  filter-IsStrict p [] h = tt
  filter-IsStrict p (x ∷ xs) h = elim (Bool-cases (p x)) [
    | inl t ↦ rw t (All-filter (λ y. at x < at y) p xs h.0, filter-IsStrict p xs h.1)
    | inr f ↦ rw f (filter-IsStrict p xs h.1)
  ]

  module _ (less : A → A → Bool) (above : (y x : A) → less y x ≡ true → at y < at x)
      (below : (y x : A) → less y x ≡ false → at x ≤ at y) where
    insert_by-IsStrict :
        (x : A) (ys : List A)
        → All (λ y. at y ≢ at x) ys
        → IsStrict ys
        → IsStrict (insert_by less x ys)
    unfolding insert_by
    insert_by-IsStrict x [] n h = (tt, tt)
    insert_by-IsStrict x (y ∷ ys) n h = elim (Bool-cases (less y x)) [
      | inl t ↦ rw t (
        All-insert_by (λ z. at y < at z) less x ys (above y x t) h.0,
        insert_by-IsStrict x ys n.1 h.1,
      )
      | inr f ↦
          let first : at x < at y = let p = below y x f in let q = n.0 in omega (arith, p, q) in
          rw f ((first, All-map (λ z q. omega (arith, first, q)) ys h.0), h)
    ]

    pub sort_by-IsStrict : (xs : List A) → IsDistinct xs → IsStrict (sort_by less xs)
    unfolding sort_by
    sort_by-IsStrict [] h = tt
    sort_by-IsStrict (x ∷ xs) h =
        insert_by-IsStrict x (sort_by less xs) (All-sort_by (λ y. at y ≢ at x) less xs h.0)
          (sort_by-IsStrict xs h.1)
