-- ===== src/Base/Sort/Laws.antt =====
-- A sort by a total preorder is in order, and has the elements of its input.
use mathlib.Core.List.{List, [], ◌∷◌, Perm}
use mathlib.Core.List.Perm
use mathlib.Core.Path.{◌≡◌}
use mathlib.Core.Bool.{Bool, true, false}
use mathlib.Core.Logic.{inl, inr}
use tkd_chb.Base.Tests.{Bool-cases}
use tkd_chb.Base.Lists.{All}
use tkd_chb.Base.Sort.{insert_by, sort_by}

pub record Preorder {ℓ} {A : Type ℓ} (le : A → A → Bool) : Type ℓ where
  pub total : (x y : A) → le x y ≡ false → le y x ≡ true
  pub transitive : (x y z : A) → le x y ≡ true → le y z ≡ true → le x z ≡ true

-- Every element stands before all that follow it.
abbrev pub IsSorted {ℓ} : {A : Type ℓ} → (A → A → Bool) → List A → Type 0
IsSorted le [] = Unit
IsSorted le (x ∷ xs) = All (λ y. le x y ≡ true) xs × IsSorted le xs

module _ {ℓ} {A : Type ℓ} {le : A → A → Bool} (order : Preorder le) where
  All-before :
      (x y : A) (zs : List A)
      → le x y ≡ true
      → All (λ z. le y z ≡ true) zs
      → All (λ z. le x z ≡ true) zs
  All-before x y [] h hs = tt
  All-before x y (z ∷ zs) h (g, gs) = (order.transitive x y z h g, All-before x y zs h gs)

  All-insert_by :
      (x y : A) (zs : List A)
      → le y x ≡ true
      → All (λ z. le y z ≡ true) zs
      → All (λ z. le y z ≡ true) (insert_by le x zs)
  unfolding insert_by
  All-insert_by x y [] h hs = (h, tt)
  All-insert_by x y (z ∷ zs) h (g, gs) = elim (Bool-cases (le x z)) [
    | inl before ↦ rw before (h, (g, gs))
    | inr after ↦ rw after (g, All-insert_by x y zs h gs)
  ]

  insert_by-IsSorted : (x : A) (ys : List A) → IsSorted le ys → IsSorted le (insert_by le x ys)
  unfolding insert_by
  insert_by-IsSorted x [] s = (tt, tt)
  insert_by-IsSorted x (y ∷ ys) (first, rest) = elim (Bool-cases (le x y)) [
    | inl before ↦ rw before ((before, All-before x y ys before first), (first, rest))
    | inr after ↦
        rw after (All-insert_by x y ys (order.total x y after) first, insert_by-IsSorted x ys rest)
  ]

  pub sort_by-IsSorted : (xs : List A) → IsSorted le (sort_by le xs)
  unfolding sort_by
  sort_by-IsSorted [] = tt
  sort_by-IsSorted (x ∷ xs) = insert_by-IsSorted x (sort_by le xs) (sort_by-IsSorted xs)

module _ {ℓ} {A : Type ℓ} (le : A → A → Bool) where
  insert_by-perm : (x : A) (ys : List A) → Perm (insert_by le x ys) (x ∷ ys)
  unfolding insert_by
  insert_by-perm x [] = Perm.refl (x ∷ [])
  insert_by-perm x (y ∷ ys) = elim (Bool-cases (le x y)) [
    | inl before ↦ rw before (Perm.refl (x ∷ y ∷ ys))
    | inr after ↦ rw after (Perm.trans (Perm.cons y (insert_by-perm x ys)) (Perm.swap x y ys))
  ]

  pub sort_by-perm : (xs : List A) → Perm (sort_by le xs) xs
  unfolding sort_by
  sort_by-perm [] = Perm.nil
  sort_by-perm (x ∷ xs) =
      Perm.trans (insert_by-perm x (sort_by le xs)) (Perm.cons x (sort_by-perm xs))
