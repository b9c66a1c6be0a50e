-- ===== src/Sort.antt =====
-- `slice::sort_by` of the standard library, which is stable: an insertion sort from the left.
pub mod Laws
pub mod Order
pub mod Top
use vigil_collector.Prelude.{List, [], ◌∷◌, ℕ, ltb, leb, if◌then◌else◌, Bool, true, false}
use vigil_collector.Float.{Cmp}

module _ {ℓ} {A : Type ℓ} (cmp : A → A → Cmp) where
  -- Behind every element that may stand before `x`.
  unfoldable pub insert_by : A → List A → List A
  insert_by x [] = x ∷ []
  insert_by x (y ∷ ys) = elim (cmp y x) [ Cmp.greater ↦ x ∷ y ∷ ys | _ ↦ y ∷ insert_by x ys ]

  unfoldable pub sort_onto : List A → List A → List A
  unfolding insert_by
  sort_onto acc [] = acc
  sort_onto acc (x ∷ xs) = sort_onto (insert_by x acc) xs

  unfoldable pub sort_by : List A → List A
  unfolding sort_onto
  sort_by = sort_onto []

-- The order of `u32`, for `sort_unstable`.
unfoldable pub cmp_u32 : ℕ → ℕ → Cmp
cmp_u32 a b = if ltb a b then Cmp.less else if ltb b a then Cmp.greater else Cmp.equal
