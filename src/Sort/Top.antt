-- ===== src/Sort/Top.antt =====
-- The first elements of a sorted list: what may be cut off early, and that they are the largest.
use vigil_collector.Prelude.{
  ℕ, zero, suc, ◌≡◌, refl, sym, ap, ◌∙◌, subst, List, [], ◌∷◌, ◌++◌, length, take, drop, All,
  All-take,
}
use vigil_collector.Float.{Cmp}
use mathlib.Core.List.{append_assoc, append-nil}
use vigil_collector.Sort.{insert_by, sort_onto, sort_by}
use vigil_collector.Sort.Laws.{Before, IsSorted, insert_by_end}
use vigil_collector.Sort.Order.{take-insert_by_full}

module _ {ℓ} {A : Type ℓ} (cmp : A → A → Cmp) where
  All-tail-append {κ} : (P : A → Type κ) (xs ys : List A) → All P (xs ++ ys) → All P ys
  All-tail-append P [] ys h = h
  All-tail-append P (x ∷ xs) ys (px, h) = All-tail-append P xs ys h

  IsSorted-Before :
      (xs : List A) (y : A) (ys : List A)
      → IsSorted cmp (xs ++ (y ∷ ys))
      → All (λ x. Before cmp x y) xs
  IsSorted-Before [] y ys s = tt
  IsSorted-Before (x ∷ xs) y ys (h, s) =
      ((All-tail-append (Before cmp x) xs (y ∷ ys) h).0, IsSorted-Before xs y ys s)

  sort_onto_sorted : (acc xs : List A) → IsSorted cmp (acc ++ xs) → sort_onto cmp acc xs ≡ acc ++ xs
  unfolding sort_onto
  sort_onto_sorted acc [] s = sym (append-nil acc)
  sort_onto_sorted acc (x ∷ xs) s =
      let regroup = append_assoc acc (x ∷ []) xs in
      rw (insert_by_end cmp x acc (IsSorted-Before acc x xs s))
        (sort_onto_sorted (acc ++ x ∷ []) xs (subst (IsSorted cmp) (sym regroup) s) ∙ regroup)

  -- Sorting a sorted list changes nothing.
  pub sort_by_sorted : (xs : List A) → IsSorted cmp xs → sort_by cmp xs ≡ xs
  unfolding sort_by
  sort_by_sorted xs s = sort_onto_sorted [] xs s

  pub IsSorted-take : (n : ℕ) (xs : List A) → IsSorted cmp xs → IsSorted cmp (take n xs)
  IsSorted-take zero xs s = tt
  IsSorted-take (suc n) [] s = tt
  IsSorted-take (suc n) (x ∷ xs) (h, s) = (All-take (Before cmp x) n xs h, IsSorted-take n xs s)

  All-drop {κ} : (P : A → Type κ) (n : ℕ) (xs : List A) → All P xs → All P (drop n xs)
  All-drop P zero xs h = h
  All-drop P (suc n) [] h = tt
  All-drop P (suc n) (x ∷ xs) (px, h) = All-drop P n xs h

  -- What is cut off stands behind everything that is kept.
  pub take-Before-drop :
      (n : ℕ) (xs : List A)
      → IsSorted cmp xs
      → All (λ x. All (Before cmp x) (drop n xs)) (take n xs)
  take-Before-drop zero xs s = tt
  take-Before-drop (suc n) [] s = tt
  take-Before-drop (suc n) (x ∷ xs) (h, s) =
      (All-drop (Before cmp x) n xs h, take-Before-drop n xs s)

  -- Elements that come behind a full list of the first `n` do not change it.
  pub take-sort_onto_full :
      (n : ℕ) (acc rest : List A)
      → length (take n acc) ≡ n
      → All (λ x. All (λ y. Before cmp y x) (take n acc)) rest
      → take n (sort_onto cmp acc rest) ≡ take n acc
  unfolding sort_onto
  take-sort_onto_full n acc [] e h = refl
  take-sort_onto_full n acc (x ∷ rest) e (hx, h) =
      let same = take-insert_by_full cmp n x acc e hx in
      take-sort_onto_full n (insert_by cmp x acc) rest (ap length same ∙ e)
        (subst (λ (t : List A). All (λ x. All (λ y. Before cmp y x) t) rest) (sym same) h)
      ∙ same
