-- ===== src/Base/Sort.antt =====
-- `Array.prototype.sort` with a comparator that is a total preorder: the sort is stable, so its result
-- is the one of an insertion sort. `le x y` says that the comparator does not put `x` after `y`.
pub mod Laws
use tkd_chb.Base.Tests.{if◌then◌else◌}
use mathlib.Core.Bool.{Bool}
use mathlib.Core.List.{List, [], ◌∷◌}

module _ {ℓ} {A : Type ℓ} (le : A → A → Bool) where
  unfoldable pub insert_by : A → List A → List A
  insert_by x [] = x ∷ []
  insert_by x (y ∷ ys) = let rest = insert_by x ys in if le x y then x ∷ y ∷ ys else y ∷ rest

  -- xs.sort(…)
  unfoldable pub sort_by : List A → List A
  sort_by [] = []
  sort_by (x ∷ xs) = insert_by x (sort_by xs)
