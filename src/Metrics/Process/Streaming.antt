-- ===== src/Metrics/Process/Streaming.antt =====
-- metrics/process.rs: the loop of `collect_top` over the entries finds the exact top.
use vigil_collector.Prelude.{
  ℕ, zero, suc, ◌≤◌, ◌≡◌, refl, sym, ap, ◌∙◌, inl, inr, true, ◌&&◌, some, List, [], ◌∷◌, ◌++◌, map,
  arith, ltb, ◌==◌, Bool-cases, Option-cases, length, get_elem?, take, All, All-append, All-take,
}
use vigil_collector.Float.{Float, Cmp, ◌≼◌, IsOrdered}
use mathlib.Core.List.{append_assoc, append-nil}
use vigil_collector.Sort.{insert_by, sort_onto, sort_by}
use vigil_collector.Sort.Laws.{
  Before, IsSorted, sort_onto-append, Cmp-cases, insert_by_greater, insert_by-Before,
}
use vigil_collector.Sort.Order.{IsPreorder, All-sort_onto, sort_by-IsSorted, take-insert_by-take}
use vigil_collector.Sort.Top.{IsSorted-take, sort_by_sorted, take-sort_onto_full}
use vigil_collector.Metrics.Process.Groups.{Aggregated}
use vigil_collector.Metrics.Process.Collect.{
  Entry, by_mem_desc, with_mem, pop_over, no_larger_than_last, stream_top, top_n,
}
use vigil_collector.Metrics.Process.Ranking.{desc-IsPreorder, Before-of_le, le_of_before}

-- Cutting a list with one element too many, and looking at its last element.
module _ {ℓ} {A : Type ℓ} where
  length-le-take : (n : ℕ) (xs : List A) → length (take n xs) ≤ n
  length-le-take zero xs = omega arith
  length-le-take (suc n) [] = omega arith
  length-le-take (suc n) (x ∷ xs) = omega (arith, length-le-take n xs)

  take_all : (n : ℕ) (xs : List A) → length xs ≤ n → take n xs ≡ xs
  take_all zero [] h = refl
  take_all zero (x ∷ xs) h = absurd (omega arith)
  take_all (suc n) [] h = refl
  take_all (suc n) (x ∷ xs) h = ap (◌∷◌ x) (take_all n xs (omega arith))

module _ {ℓ} {A : Type ℓ} (cmp : A → A → Cmp) where
  length-insert_by : (x : A) (ys : List A) → length (insert_by cmp x ys) ≡ suc (length ys)
  length-insert_by x [] = unfold insert_by in refl
  length-insert_by x (y ∷ ys) = elim (Cmp-cases cmp y x) [
    | inl g ↦ rw (insert_by_greater cmp x y ys g)
    | inr b ↦ rw (insert_by-Before cmp x y ys b) (ap suc (length-insert_by x ys))
  ]

  sort_by_snoc :
      (xs : List A) (x : A) → sort_by cmp (xs ++ x ∷ []) ≡ insert_by cmp x (sort_by cmp xs)
  unfolding sort_by sort_onto
  sort_by_snoc xs x = sort_onto-append cmp [] xs (x ∷ [])

  All-Before_last :
      (n : ℕ) (xs : List A) (z : A)
      → IsSorted cmp xs
      → length xs ≡ suc n
      → get_elem? xs n ≡ some z
      → Before cmp z z
      → All (λ x. Before cmp x z) xs
  All-Before_last n [] z s e g b = tt
  All-Before_last zero (x ∷ []) z s e g b = (ground arith, tt)
  All-Before_last zero (x ∷ y ∷ xs) z s e g b = absurd (omega arith)
  All-Before_last (suc n) (x ∷ xs) z (h, s) e g b =
      (before_elem n xs h g, All-Before_last n xs z s (omega arith) g b)
    where
      before_elem :
          (k : ℕ) (ys : List A) → All (Before cmp x) ys → get_elem? ys k ≡ some z → Before cmp x z
      before_elem k [] h g = absurd (cc)
      before_elem zero (y ∷ ys) h g = ground arith
      before_elem (suc k) (y ∷ ys) h g = before_elem k ys h.1 g

module _ {F : Type 0} ⦃f : Float F⦄ where
  -- The amount of an entry is not NaN.
  abbrev pub IsNum : Entry F → Type 0
  IsNum e = e.1.mem_mb ≼ e.1.mem_mb

  -- The proportional size of a group is at most its resident size.
  abbrev pub IsBounded : (Aggregated F → F) → Entry F → Type 0
  IsBounded pss e = pss e.1 ≼ e.1.mem_mb

module _ {F : Type 0} ⦃f : Float F⦄ (laws : IsOrdered F) (pss : Aggregated F → F) where
  open laws use {refl_of_le, le_trans}

  order : IsPreorder (by_mem_desc {F = F}) IsNum
  unfolding by_mem_desc
  order = desc-IsPreorder laws (λ (e : Entry F). e.1.mem_mb)

  Before-num : (a b : Entry F) → b.1.mem_mb ≼ a.1.mem_mb → Before by_mem_desc a b
  unfolding by_mem_desc
  Before-num a b h =
      let (nb, na) = refl_of_le b.1.mem_mb a.1.mem_mb h in
      Before-of_le laws (λ (e : Entry F). e.1.mem_mb) a b na nb h

  num_before :
      (a b : Entry F) → IsNum a → IsNum b → Before by_mem_desc a b → b.1.mem_mb ≼ a.1.mem_mb
  unfolding by_mem_desc
  num_before = le_of_before laws (λ (e : Entry F). e.1.mem_mb)

  pub All-IsNum : (es : List (Entry F)) → All (IsBounded pss) es → All IsNum es
  All-IsNum [] h = tt
  All-IsNum (e ∷ es) (h, hs) = ((refl_of_le _ _ h).1, All-IsNum es hs)

  pub All-with_mem :
      (es : List (Entry F)) → All (IsBounded pss) es → All IsNum (map (with_mem pss) es)
  All-with_mem [] h = tt
  All-with_mem (e ∷ es) (h, hs) = ((refl_of_le _ _ h).0, All-with_mem es hs)

  -- One round of the loop keeps the first ten of all that it has seen.
  pop_over_lem :
      (seen : List (Entry F)) (x : Entry F)
      → All IsNum seen
      → pop_over (sort_by by_mem_desc (take top_n (sort_by by_mem_desc seen) ++ x ∷ []))
        ≡ take top_n (sort_by by_mem_desc (seen ++ x ∷ []))
  unfolding pop_over
  pop_over_lem seen x h =
      let s = sort_by by_mem_desc seen in
      let sorted =
        IsSorted-take by_mem_desc 10 s (sort_by-IsSorted by_mem_desc IsNum order seen h) in
      let len = length-insert_by by_mem_desc x (take 10 s) in
      let le = length-le-take 10 s in
      rw
        (
          sort_by_snoc by_mem_desc (take 10 s) x,
          sort_by_sorted by_mem_desc (take 10 s) sorted,
          sort_by_snoc by_mem_desc seen x,
          ← take-insert_by-take by_mem_desc 10 x s,
        )
        (cut (insert_by by_mem_desc x (take 10 s)) (omega arith))
    where
      cut : (l : List (Entry F)) → length l ≤ 11 → pop_over l ≡ take 10 l
      cut l le = elim (Bool-cases (ltb 10 (length l))) [
        | inl over ↦ rw over (ap (λ k. take k l) {y = 10} (ground arith))
        | inr fits ↦ rw fits (sym (take_all 10 l (ground arith)))
      ]

  -- The entries that are left come behind every entry of the full list, once its last one is no
  -- smaller than the resident size of the next.
  rest_behind :
      (top : List (Entry F)) (z e : Entry F) (rest : List (Entry F))
      → All IsNum top
      → All (λ x. Before by_mem_desc x z) top
      → IsNum z
      → e.1.mem_mb ≼ z.1.mem_mb
      → All (IsBounded pss) rest
      → All (λ r. r.1.mem_mb ≼ e.1.mem_mb) rest
      → All (λ r. All (λ x. Before by_mem_desc x r) top) (map (with_mem pss) rest)
  rest_behind top z e [] nt ht nz le hb hs = tt
  rest_behind top z e (r ∷ rest) nt ht nz le (hb, hbs) (hr, hrs) =
      (all_behind top nt ht, rest_behind top z e rest nt ht nz le hbs hrs)
    where
      below : pss r.1 ≼ z.1.mem_mb
      below = le_trans _ _ _ (le_trans _ _ _ hb hr) le

      all_behind :
          (xs : List (Entry F))
          → All IsNum xs
          → All (λ x. Before by_mem_desc x z) xs
          → All (λ x. Before by_mem_desc x (with_mem pss r)) xs
      all_behind [] n h = tt
      all_behind (x ∷ xs) (nx, n) (hx, h) = (
        Before-num x (with_mem pss r) (le_trans _ _ _ below (num_before x z nx nz hx)),
        all_behind xs n h,
      )

  abbrev pub top_of : List (Entry F) → List (Entry F)
  top_of seen = take top_n (sort_by by_mem_desc seen)

  behind_next :
      (e : Entry F) (rest : List (Entry F))
      → IsNum e
      → All IsNum rest
      → All (Before by_mem_desc e) rest
      → All (λ r. r.1.mem_mb ≼ e.1.mem_mb) rest
  behind_next e [] ne n h = tt
  behind_next e (r ∷ rest) ne (nr, n) (hr, h) = (num_before e r ne nr hr, behind_next e rest ne n h)

  -- Where the loop stops early, the entries that it has not looked at change nothing.
  stop_early :
      (seen : List (Entry F)) (e : Entry F) (rest : List (Entry F))
      → All IsNum seen
      → All (IsBounded pss) (e ∷ rest)
      → IsSorted by_mem_desc (e ∷ rest)
      → length (top_of seen) ≡ top_n
      → no_larger_than_last e.1.mem_mb (top_of seen) ≡ true
      → top_of seen ≡ top_of (seen ++ map (with_mem pss) (e ∷ rest))
  unfolding no_larger_than_last sort_by
  stop_early seen e rest n (he, hb) (hs, s) full stop =
      elim (Option-cases (get_elem? (top_of seen) 9)) [
        | inl missing ↦ absurd (ground arith)
        | inr (z, last) ↦
            let sorted =
              IsSorted-take by_mem_desc 10 (sort_by by_mem_desc seen)
                (sort_by-IsSorted by_mem_desc IsNum order seen n) in
            let nums =
              All-take IsNum 10 (sort_by by_mem_desc seen)
                (All-sort_onto by_mem_desc IsNum [] seen tt n) in
            let le : e.1.mem_mb ≼ z.1.mem_mb = ground arith in
            let (ne, nz) = refl_of_le _ _ le in
            let front =
              All-Before_last by_mem_desc 9 (top_of seen) z sorted full last (Before-num z z nz) in
            let behind =
              rest_behind (top_of seen) z e (e ∷ rest) nums front nz le (he, hb)
                (ne, behind_next e rest ne (All-IsNum rest hb) hs) in
            sym (
              ap (take 10) (sort_onto-append by_mem_desc [] seen (map (with_mem pss) (e ∷ rest)))
              ∙ take-sort_onto_full by_mem_desc 10 (sort_by by_mem_desc seen)
                  (map (with_mem pss) (e ∷ rest)) full behind)
      ]

  -- The loop, started with the first ten of what it has seen, ends with the first ten of all.
  pub stream_top-eq :
      (seen rest : List (Entry F))
      → All IsNum seen
      → All (IsBounded pss) rest
      → IsSorted by_mem_desc rest
      → stream_top pss (top_of seen) rest ≡ top_of (seen ++ map (with_mem pss) rest)
  unfolding stream_top
  stream_top-eq seen [] n h s = rw (append-nil seen)
  stream_top-eq seen (e ∷ rest) n (he, hb) (hs, s) =
      elim (Bool-cases
        ((length (top_of seen) == top_n) && no_larger_than_last e.1.mem_mb (top_of seen))) [
          | inl stop ↦
              rw stop (stop_early seen e rest n (he, hb) (hs, s) (ground arith) (ground arith))
          | inr go ↦
              rw (go, pop_over_lem seen (with_mem pss e) n)
                (stream_top-eq (seen ++ with_mem pss e ∷ []) rest
                    (All-append IsNum seen (with_mem pss e ∷ []) n ((refl_of_le _ _ he).0, tt)) hb s
                  ∙ ap top_of (append_assoc seen (with_mem pss e ∷ []) (map (with_mem pss) rest)))
        ]
