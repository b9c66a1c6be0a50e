-- ===== src/Metrics/Process/Collecting.antt =====
-- metrics/process.rs: what the rankings hold, against the list of all groups.
use vigil_collector.Prelude.{
  ℕ, zero, suc, min, ◌≡◌, refl, sym, ap, subst, Bool, true, false, List, [], ◌∷◌, ◌++◌, map,
  if◌then◌else◌, length, take, drop, take-append-drop, length-take, All, All-take,
}
use vigil_collector.Float.{Float, Cmp, partial_cmp, ◌≼◌, IsOrdered}
use mathlib.Core.List.{Perm}
use mathlib.Core.List.Perm
use vigil_collector.Sort.{sort_by}
use vigil_collector.Sort.Laws.{Before, IsSorted, sort_by-perm}
use vigil_collector.Sort.Order.{All-sort_onto, sort_by-IsSorted}
use vigil_collector.Sort.Top.{IsSorted-take, take-Before-drop}
use vigil_collector.Metrics.Process.Groups.{Aggregated}
use vigil_collector.Metrics.Process.Collect.{
  Entry, CpuEntry, or_equal, by_mem_desc, by_cpu_desc, with_mem, top_n, final_entries,
  final_entries_cpu,
}
use vigil_collector.Metrics.Process.Ranking.{desc-IsPreorder, le_of_before}
use vigil_collector.Metrics.Process.Streaming.{
  IsNum, IsBounded, All-IsNum, All-with_mem, stream_top-eq,
}

module _ {ℓ} {A : Type ℓ} {F : Type 0} ⦃f : Float F⦄ where
  -- No later element is larger.
  abbrev pub IsRanked : (A → F) → List A → Type 0
  IsRanked key [] = Unit
  IsRanked key (x ∷ xs) = All (λ y. key y ≼ key x) xs × IsRanked key xs

  -- `out` holds ten of `all`, or all of them if they are fewer, the largest by `key` first; no value
  -- that is left out is larger than one in `out`.
  pub record IsTop (key : A → F) (out all : List A) : Type ℓ where
    pub left : List A
    pub whole : Perm (out ++ left) all
    pub count : length out ≡ min top_n (length (out ++ left))
    pub ranked : IsRanked key out
    pub largest : All (λ x. All (λ y. key y ≼ key x) left) out

module _ {ℓ} {A : Type ℓ} {F : Type 0} ⦃f : Float F⦄ (laws : IsOrdered F) (key : A → F) where
  abbrev IsNumber : A → Type 0
  IsNumber a = key a ≼ key a

  abbrev cmp : A → A → Cmp
  cmp a b = or_equal (partial_cmp (key b) (key a))

  All-le :
      (x : A) (ys : List A)
      → IsNumber x
      → All IsNumber ys
      → All (Before cmp x) ys
      → All (λ y. key y ≼ key x) ys
  All-le x [] nx n h = tt
  All-le x (y ∷ ys) nx (ny, n) (hy, h) = (le_of_before laws key x y nx ny hy, All-le x ys nx n h)

  IsSorted-IsRanked : (xs : List A) → All IsNumber xs → IsSorted cmp xs → IsRanked key xs
  IsSorted-IsRanked [] n s = tt
  IsSorted-IsRanked (x ∷ xs) (nx, n) (h, s) = (All-le x xs nx n h, IsSorted-IsRanked xs n s)

  AllBefore-le :
      (xs ys : List A)
      → All IsNumber xs
      → All IsNumber ys
      → All (λ x. All (Before cmp x) ys) xs
      → All (λ x. All (λ y. key y ≼ key x) ys) xs
  AllBefore-le [] ys n m h = tt
  AllBefore-le (x ∷ xs) ys (nx, n) m (hx, h) = (All-le x ys nx m hx, AllBefore-le xs ys n m h)

  All-drop {κ} : (P : A → Type κ) (n : ℕ) (xs : List A) → All P xs → All P (drop n xs)
  All-drop P zero xs h = h
  All-drop P (suc n) [] h = tt
  All-drop P (suc n) (x ∷ xs) (px, h) = All-drop P n xs h

  -- The first ten of the sorted list are a top ten of any list with the same elements.
  pub take-sort_by-IsTop :
      (xs all : List A)
      → All IsNumber xs
      → Perm xs all
      → IsTop key (take top_n (sort_by cmp xs)) all
  unfolding sort_by
  take-sort_by-IsTop xs all n p =
      let order = desc-IsPreorder laws key in
      let s = sort_by cmp xs in
      let sorted = sort_by-IsSorted cmp IsNumber order xs n in
      let nums = All-sort_onto cmp IsNumber [] xs tt n in
      let front = All-take IsNumber 10 s nums in
      record {
        left = drop 10 s;
        whole =
            subst (λ l. Perm l all) (sym (take-append-drop 10 s))
              (Perm.trans (sort_by-perm cmp xs) p);
        count = rw (take-append-drop 10 s) (length-take 10 s);
        ranked = IsSorted-IsRanked (take 10 s) front (IsSorted-take cmp 10 s sorted);
        largest =
            AllBefore-le (take 10 s) (drop 10 s) front (All-drop IsNumber 10 s nums)
              (take-Before-drop cmp 10 s sorted);
      }

module _ {F : Type 0} ⦃f : Float F⦄ where
  -- What an entry is ranked by.
  abbrev pub measured : Bool → (Aggregated F → F) → Entry F → Entry F
  measured supported pss e = if supported then with_mem pss e else e

map_id {ℓ} : {A : Type ℓ} (xs : List A) → map (λ x. x) xs ≡ xs
map_id [] = refl
map_id (x ∷ xs) = ap (◌∷◌ x) (map_id xs)

module _ {F : Type 0} ⦃f : Float F⦄ (laws : IsOrdered F) where
  -- For every list of groups whose proportional sizes are at most their resident sizes, the loop that
  -- stops early returns what sorting all groups by proportional size and keeping the first ten
  -- returns, ties and their order included.
  pub final_entries-eq-take :
      (pss : Aggregated F → F) (by_name : List (Entry F))
      → All (IsBounded pss) by_name
      → final_entries true pss by_name
        ≡ take top_n (sort_by by_mem_desc (map (with_mem pss) (sort_by by_mem_desc by_name)))
  unfolding final_entries sort_by by_mem_desc
  final_entries-eq-take pss by_name h =
      let key = λ (e : Entry F). e.1.mem_mb in
      stream_top-eq laws pss [] (sort_by by_mem_desc by_name) tt
        (All-sort_onto by_mem_desc (IsBounded pss) [] by_name tt h)
        (sort_by-IsSorted by_mem_desc IsNum (desc-IsPreorder laws key) by_name
          (All-IsNum laws pss by_name h))

  -- For every list of groups whose proportional sizes are at most their resident sizes, the entries
  -- that `collect_top` ends with are a top ten: by proportional size where that is supported, and
  -- by resident size otherwise.
  final_entries-IsTop :
      (supported : Bool) (pss : Aggregated F → F) (by_name : List (Entry F))
      → All (IsBounded pss) by_name
      → IsTop
          (λ e. e.1.mem_mb)
          (final_entries supported pss by_name)
          (map (measured supported pss) by_name)
  unfolding final_entries by_mem_desc
  final_entries-IsTop true pss by_name h =
      let w = with_mem pss in
      let bounded = All-sort_onto by_mem_desc (IsBounded pss) [] by_name tt h in
      subst (λ out. IsTop (λ (e : Entry F). e.1.mem_mb) out (map w by_name))
        (sym (final_entries-eq-take pss by_name h))
        (take-sort_by-IsTop laws (λ (e : Entry F). e.1.mem_mb) (map w (sort_by by_mem_desc by_name))
          (map w by_name)
          (unfold sort_by in All-with_mem laws pss (sort_by by_mem_desc by_name) bounded)
          (Perm.map w (sort_by-perm by_mem_desc by_name)))
  final_entries-IsTop false pss by_name h =
      subst (IsTop (λ (e : Entry F). e.1.mem_mb) (take top_n (sort_by by_mem_desc by_name)))
        (sym (map_id by_name))
        (take-sort_by-IsTop laws (λ (e : Entry F). e.1.mem_mb) by_name by_name
          (All-IsNum laws pss by_name h) (Perm.refl by_name))

  -- If no share is NaN, the entries that `collect_top_cpu` ends with are a top ten by CPU share.
  pub final_entries_cpu-IsTop :
      (by_name : List (CpuEntry F))
      → All (λ e. e.1.cpu_pct ≼ e.1.cpu_pct) by_name
      → IsTop (λ e. e.1.cpu_pct) (final_entries_cpu by_name) by_name
  unfolding final_entries_cpu by_cpu_desc
  final_entries_cpu-IsTop by_name h =
      take-sort_by-IsTop laws (λ (e : CpuEntry F). e.1.cpu_pct) by_name by_name h
        (Perm.refl by_name)
