-- ===== src/Sort/Order.antt =====
-- Sorting by a comparison that is a total preorder on the values at hand.
use vigil_collector.Prelude.{
  ℕ, zero, suc, ◌≡◌, refl, ap, inl, inr, List, [], ◌∷◌, arith, length, take, All,
}
use vigil_collector.Float.{Cmp}
use vigil_collector.Sort.{insert_by, sort_onto, sort_by}
use vigil_collector.Sort.Laws.{Before, IsSorted, Cmp-cases, insert_by_greater, insert_by-Before}

-- On the values with `P` the comparison is a total preorder.
pub record IsPreorder {ℓ κ} {A : Type ℓ} (cmp : A → A → Cmp) (P : A → Type κ) : Type (ℓ ⊔ κ) where
  pub before_trans :
      (a b c : A) → P a → P b → P c → Before cmp a b → Before cmp b c → Before cmp a c
  pub before_of_greater : (a b : A) → P a → P b → cmp a b ≡ Cmp.greater → Before cmp b a

module _ {ℓ κ} {A : Type ℓ} (cmp : A → A → Cmp) (P : A → Type κ) where
  pub All-insert_by : (x : A) (ys : List A) → P x → All P ys → All P (insert_by cmp x ys)
  All-insert_by x [] px h = unfold insert_by in (px, tt)
  All-insert_by x (y ∷ ys) px (py, h) = elim (Cmp-cases cmp y x) [
    | inl g ↦ rw (insert_by_greater cmp x y ys g) (px, (py, h))
    | inr b ↦ rw (insert_by-Before cmp x y ys b) (py, All-insert_by x ys px h)
  ]

  pub All-sort_onto : (acc xs : List A) → All P acc → All P xs → All P (sort_onto cmp acc xs)
  unfolding sort_onto
  All-sort_onto acc [] ha h = ha
  All-sort_onto acc (x ∷ xs) ha (px, h) =
      All-sort_onto (insert_by cmp x acc) xs (All-insert_by x acc px ha) h

module _ {ℓ κ} {A : Type ℓ} (cmp : A → A → Cmp) (P : A → Type κ) (order : IsPreorder cmp P) where
  open order use {before_trans, before_of_greater}

  All-Before_trans :
      (x y : A) (zs : List A)
      → P x
      → P y
      → All P zs
      → Before cmp x y
      → All (Before cmp y) zs
      → All (Before cmp x) zs
  All-Before_trans x y [] px py pz h hs = tt
  All-Before_trans x y (z ∷ zs) px py (pz, pzs) h (hz, hs) =
      (before_trans x y z px py pz h hz, All-Before_trans x y zs px py pzs h hs)

  pub insert_by-IsSorted :
      (x : A) (ys : List A) → P x → All P ys → IsSorted cmp ys → IsSorted cmp (insert_by cmp x ys)
  insert_by-IsSorted x [] px h s = unfold insert_by in (tt, tt)
  insert_by-IsSorted x (y ∷ ys) px (py, h) (hy, s) = elim (Cmp-cases cmp y x) [
    | inl g ↦
        let b = before_of_greater y x py px g in
        rw (insert_by_greater cmp x y ys g) ((b, All-Before_trans x y ys px py h b hy), (hy, s))
    | inr b ↦
        rw (insert_by-Before cmp x y ys b)
          (All-insert_by cmp (Before cmp y) x ys b hy, insert_by-IsSorted x ys px h s)
  ]

  pub sort_onto-IsSorted :
      (acc xs : List A)
      → All P acc
      → All P xs
      → IsSorted cmp acc
      → IsSorted cmp (sort_onto cmp acc xs)
  unfolding sort_onto
  sort_onto-IsSorted acc [] ha h s = s
  sort_onto-IsSorted acc (x ∷ xs) ha (px, h) s =
      sort_onto-IsSorted (insert_by cmp x acc) xs (All-insert_by cmp P x acc px ha) h
        (insert_by-IsSorted x acc px ha s)

  pub sort_by-IsSorted : (xs : List A) → All P xs → IsSorted cmp (sort_by cmp xs)
  unfolding sort_by
  sort_by-IsSorted xs h = sort_onto-IsSorted [] xs tt h tt

module _ {ℓ} {A : Type ℓ} where
  take-cons-take : (n : ℕ) (y : A) (ys : List A) → take n (y ∷ take n ys) ≡ take n (y ∷ ys)
  take-cons-take zero y ys = refl
  take-cons-take (suc n) y [] = refl
  take-cons-take (suc n) y (z ∷ zs) = ap (◌∷◌ y) (take-cons-take n z zs)

module _ {ℓ} {A : Type ℓ} (cmp : A → A → Cmp) where
  -- What a full list of the first `n` holds is not moved by an element that comes behind them.
  pub take-insert_by_full :
      (n : ℕ) (x : A) (ys : List A)
      → length (take n ys) ≡ n
      → All (λ y. Before cmp y x) (take n ys)
      → take n (insert_by cmp x ys) ≡ take n ys
  take-insert_by_full zero x ys e h = refl
  take-insert_by_full (suc n) x [] e h = absurd (omega arith)
  take-insert_by_full (suc n) x (y ∷ ys) e (h, hs) =
      rw (insert_by-Before cmp x y ys h) (ap (◌∷◌ y) (take-insert_by_full n x ys (omega arith) hs))

  -- Only the first `n` decide what the first `n` are after an insertion.
  pub take-insert_by-take :
      (n : ℕ) (x : A) (ys : List A)
      → take n (insert_by cmp x (take n ys)) ≡ take n (insert_by cmp x ys)
  take-insert_by-take zero x ys = refl
  take-insert_by-take (suc n) x [] = refl
  take-insert_by-take (suc n) x (y ∷ ys) = elim (Cmp-cases cmp y x) [
    | inl g ↦
        rw (insert_by_greater cmp x y (take n ys) g, insert_by_greater cmp x y ys g)
          (ap (◌∷◌ x) (take-cons-take n y ys))
    | inr b ↦
        rw (insert_by-Before cmp x y (take n ys) b, insert_by-Before cmp x y ys b)
          (ap (◌∷◌ y) (take-insert_by-take n x ys))
  ]
