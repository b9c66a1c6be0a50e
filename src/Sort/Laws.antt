-- ===== src/Sort/Laws.antt =====
-- Sorting keeps the elements; sorting on is sorting; a sorted list stays.
use mathlib.Core.List.{Perm, perm_middle, append-nil}
use mathlib.Core.List.Perm
use vigil_collector.Prelude.{List, [], ◌∷◌, ◌++◌, ◌≡◌, ◌≢◌, refl, ap, ◌∙◌, ◌⊎◌, inl, inr, All}
use vigil_collector.Float.{Cmp}
use vigil_collector.Sort.{insert_by, sort_onto, sort_by}

module _ {ℓ} {A : Type ℓ} (cmp : A → A → Cmp) where
  -- `x` may stand before `y`.
  abbrev pub Before : A → A → Type 0
  Before x y = cmp x y ≢ Cmp.greater

  abbrev pub IsSorted : List A → Type 0
  IsSorted [] = Unit
  IsSorted (x ∷ xs) = All (Before x) xs × IsSorted xs

  pub Cmp-cases : (a b : A) → (cmp a b ≡ Cmp.greater) ⊎ Before a b
  Cmp-cases a b = go (cmp a b) refl
    where
      go : (c : Cmp) → cmp a b ≡ c → (cmp a b ≡ Cmp.greater) ⊎ Before a b
      go Cmp.less e = inr (λ g. cc)
      go Cmp.equal e = inr (λ g. cc)
      go Cmp.greater e = inl e

  pub insert_by_greater :
      (x y : A) (ys : List A) → cmp y x ≡ Cmp.greater → insert_by cmp x (y ∷ ys) ≡ x ∷ y ∷ ys
  unfolding insert_by
  insert_by_greater x y ys e = rw (e, insert_by)

  pub insert_by-Before :
      (x y : A) (ys : List A) → Before y x → insert_by cmp x (y ∷ ys) ≡ y ∷ insert_by cmp x ys
  unfolding insert_by
  insert_by-Before x y ys h = go (cmp y x) refl
    where
      go : (c : Cmp) → cmp y x ≡ c → insert_by cmp x (y ∷ ys) ≡ y ∷ insert_by cmp x ys
      go Cmp.less e = rw (e, insert_by)
      go Cmp.equal e = rw (e, insert_by)
      go Cmp.greater e = absurd (h e)

  pub insert_by-perm : (x : A) (ys : List A) → Perm (insert_by cmp x ys) (x ∷ ys)
  insert_by-perm x [] = unfold insert_by in Perm.refl (x ∷ [])
  insert_by-perm x (y ∷ ys) = elim (Cmp-cases y x) [
    | inl g ↦ rw (insert_by_greater x y ys g) (Perm.refl (x ∷ y ∷ ys))
    | inr b ↦
        rw (insert_by-Before x y ys b)
          (Perm.trans (Perm.cons y (insert_by-perm x ys)) (Perm.swap x y ys))
  ]

  pub sort_onto-perm : (acc xs : List A) → Perm (sort_onto cmp acc xs) (acc ++ xs)
  unfolding sort_onto
  sort_onto-perm acc [] = rw append-nil (Perm.refl acc)
  sort_onto-perm acc (x ∷ xs) = Perm.trans (sort_onto-perm (insert_by cmp x acc) xs) (
      Perm.trans (Perm.append (insert_by-perm x acc) (Perm.refl xs))
        (Perm.symm (perm_middle acc xs)))

  pub sort_by-perm : (xs : List A) → Perm (sort_by cmp xs) xs
  unfolding sort_by
  sort_by-perm xs = sort_onto-perm [] xs

  pub sort_onto-append :
      (acc xs ys : List A) → sort_onto cmp acc (xs ++ ys) ≡ sort_onto cmp (sort_onto cmp acc xs) ys
  unfolding sort_onto
  sort_onto-append acc [] ys = refl
  sort_onto-append acc (x ∷ xs) ys = sort_onto-append (insert_by cmp x acc) xs ys

  -- An element that may stand behind all goes to the end.
  pub insert_by_end :
      (x : A) (ys : List A) → All (λ y. Before y x) ys → insert_by cmp x ys ≡ ys ++ x ∷ []
  insert_by_end x [] h = unfold insert_by in refl
  insert_by_end x (y ∷ ys) (h, hs) = insert_by-Before x y ys h ∙ ap (◌∷◌ y) (insert_by_end x ys hs)
