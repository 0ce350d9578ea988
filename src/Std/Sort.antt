-- ===== src/Std/Sort.antt =====
-- `sort.SliceStable`, by insertion: the order of the result does not depend on how it is reached,
-- since elements that compare neither way keep their order.
use wgctrl_go.Base.{
  Bool, true, false, List, [], ◌∷◌, if◌then◌else◌, if_either, ◌≡◌, Bool-cases, inl, inr,
}
use mathlib.Core.List.{Perm}
use mathlib.Core.List.Perm

module _ {ℓ} {A : Type ℓ} (less : A → A → Bool) where
  unfoldable pub insert : A → List A → List A
  insert x [] = x ∷ []
  insert x (y ∷ ys) = let rest = insert x ys in if less y x then y ∷ rest else x ∷ y ∷ ys

  unfoldable pub sort_stable : List A → List A
  unfolding insert
  sort_stable [] = []
  sort_stable (x ∷ xs) = insert x (sort_stable xs)

  -- No element is less than the one in front of it.
  abbrev pub IsSorted : List A → Type 0
  IsSorted [] = Unit
  IsSorted (x ∷ []) = Unit
  IsSorted (x ∷ y ∷ ys) = (less y x ≡ false) × IsSorted (y ∷ ys)

  insert-Perm : (x : A) (ys : List A) → Perm (insert x ys) (x ∷ ys)
  unfolding insert
  insert-Perm x [] = Perm.refl (x ∷ [])
  insert-Perm x (y ∷ ys) = elim (Bool-cases (less y x)) [
    | inl e ↦ rw e (Perm.trans (Perm.cons y (insert-Perm x ys)) (Perm.swap x y ys))
    | inr e ↦ rw e (Perm.refl (x ∷ y ∷ ys))
  ]

  pub sort_stable-Perm : (xs : List A) → Perm (sort_stable xs) xs
  unfolding sort_stable
  sort_stable-Perm [] = Perm.refl []
  sort_stable-Perm (x ∷ xs) =
      Perm.trans (insert-Perm x (sort_stable xs)) (Perm.cons x (sort_stable-Perm xs))

  -- The first element is not less than `y`.
  abbrev NotBelow : A → List A → Type 0
  NotBelow y [] = Unit
  NotBelow y (z ∷ zs) = less z y ≡ false

  cons-IsSorted : (y : A) (ys : List A) → NotBelow y ys → IsSorted ys → IsSorted (y ∷ ys)
  cons-IsSorted y [] h s = tt
  cons-IsSorted y (z ∷ zs) h s = (h, s)

  head-NotBelow : (y : A) (ys : List A) → IsSorted (y ∷ ys) → NotBelow y ys
  head-NotBelow y [] s = tt
  head-NotBelow y (z ∷ zs) s = s.0

  tail-IsSorted : (y : A) (ys : List A) → IsSorted (y ∷ ys) → IsSorted ys
  tail-IsSorted y [] s = tt
  tail-IsSorted y (z ∷ zs) s = s.1

  insert-NotBelow :
      (x y : A) (ys : List A) → less x y ≡ false → NotBelow y ys → NotBelow y (insert x ys)
  unfolding insert
  insert-NotBelow x y [] h k = h
  insert-NotBelow x y (z ∷ zs) h k = if_either (NotBelow y) (less z x) k h

  module _ (asymmetric : (x y : A) → less x y ≡ true → less y x ≡ false) where
    insert-IsSorted : (x : A) (ys : List A) → IsSorted ys → IsSorted (insert x ys)
    unfolding insert
    insert-IsSorted x [] s = tt
    insert-IsSorted x (y ∷ ys) s = elim (Bool-cases (less y x)) [
      | inl e ↦ rw e (
          cons-IsSorted y (insert x ys)
            (insert-NotBelow x y ys (asymmetric y x e) (head-NotBelow y ys s))
            (insert-IsSorted x ys (tail-IsSorted y ys s)))
      | inr e ↦ rw e (e, s)
    ]

    pub sort_stable-IsSorted : (xs : List A) → IsSorted (sort_stable xs)
    unfolding sort_stable
    sort_stable-IsSorted [] = tt
    sort_stable-IsSorted (x ∷ xs) = insert-IsSorted x (sort_stable xs) (sort_stable-IsSorted xs)
