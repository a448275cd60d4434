-- ===== src/Base/Sorting.antt =====
-- `std::sort` on keys: the sorted rearrangement, which is unique for a total order.
use mathlib.Core.List.{List, [], ◌∷◌}
use teleno.Base.Tests.{if◌then◌else◌}
use teleno.Base.Keys.{Key, ◌<?◌}

module _ {ℓ} {A : Type ℓ} ⦃e : Key A⦄ where
  unfoldable pub insert_sorted : A → List A → List A
  insert_sorted x [] = x ∷ []
  insert_sorted x (y ∷ ys) =
      let rest = insert_sorted x ys in if y <? x then y ∷ rest else x ∷ y ∷ ys

  unfoldable pub sort : List A → List A
  unfolding insert_sorted
  sort [] = []
  sort (x ∷ xs) = insert_sorted x (sort xs)
