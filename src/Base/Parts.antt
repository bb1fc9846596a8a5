-- ===== src/Base/Parts.antt =====
-- Lists up to order: what sorting, filtering and cutting leave and leave out.
use Prim.Native.Nat.{ℕ, zero, suc}
use mathlib.Core.Path.{◌≡◌, refl, ap}
use mathlib.Core.Logic.{inl, inr}
use mathlib.Core.Bool.{Bool, not}
use mathlib.Core.List.{List, [], ◌∷◌, ◌++◌, Perm, perm_middle}
use mathlib.Core.List.Perm
use bazusop.Base.Tests.{Bool-cases}
use bazusop.Base.Lists.{filter, take, drop}
use bazusop.Base.Sort.{insert_by, sort_by}

module _ {A : Type 0} where
  pub take-append-drop : (n : ℕ) (xs : List A) → take n xs ++ drop n xs ≡ xs
  take-append-drop zero [] = refl
  take-append-drop zero (x ∷ xs) = refl
  take-append-drop (suc n) [] = refl
  take-append-drop (suc n) (x ∷ xs) = ap (λ ys. x ∷ ys) (take-append-drop n xs)

  pub filter-perm :
      (p : A → Bool) (xs : List A) → Perm (filter p xs ++ filter (λ x. not (p x)) xs) xs
  filter-perm p [] = Perm.refl []
  filter-perm p (x ∷ xs) = elim (Bool-cases (p x)) [
    | inl t ↦ rw t (Perm.cons x (filter-perm p xs))
    | inr f ↦ rw f (
        Perm.trans (perm_middle (filter p xs) (filter (λ y. not (p y)) xs))
          (Perm.cons x (filter-perm p xs)))
  ]

  module _ (less : A → A → Bool) where
    insert_by-perm : (x : A) (ys : List A) → Perm (insert_by less x ys) (x ∷ ys)
    unfolding insert_by
    insert_by-perm x [] = Perm.refl (x ∷ [])
    insert_by-perm x (y ∷ ys) = elim (Bool-cases (less y x)) [
      | inl t ↦ rw t (Perm.trans (Perm.cons y (insert_by-perm x ys)) (Perm.swap x y ys))
      | inr f ↦ rw f (Perm.refl (x ∷ y ∷ ys))
    ]

    pub sort_by-perm : (xs : List A) → Perm (sort_by less xs) xs
    unfolding sort_by
    sort_by-perm [] = Perm.refl []
    sort_by-perm (x ∷ xs) =
        Perm.trans (insert_by-perm x (sort_by less xs)) (Perm.cons x (sort_by-perm xs))
