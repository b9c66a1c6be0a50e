-- ===== src/Metrics/Net/Rates.antt =====
-- metrics/net.rs: the totals behind the throughput, whatever the order of the interfaces.
use vigil_collector.Prelude.{
  ℕ, ◌+◌, ◌≡◌, refl, sym, ap, ◌∙◌, inl, inr, Option, some, List, [], ◌∷◌, arith, if◌then◌else◌,
  Bool-cases,
}
use vigil_collector.Float.{Float}
use vigil_collector.Text.{codes, text_eq}
use mathlib.Core.List.{Permᴰ}
use vigil_collector.Metrics.Disk.Laws.{cap, saturating_add-cap}
use vigil_collector.Metrics.Net.{
  Interface, NetIoPrev, add_interfaces, throughput_since, collect_throughput,
}

-- The exact sum of a counter over the interfaces other than `lo`.
unfoldable pub sum_over : (Interface → ℕ) → List Interface → ℕ
unfolding text_eq
sum_over count [] = 0
sum_over count (d ∷ ds) = (if text_eq d.name (codes "lo") then 0 else count d) + sum_over count ds

counts-ap :
    (count : Interface → ℕ) {d e : Interface}
    → d ≡ e
    → (if text_eq d.name (codes "lo") then 0 else count d)
      ≡ (if text_eq e.name (codes "lo") then 0 else count e)
counts-ap count h = ap (λ d. if text_eq d.name (codes "lo") then 0 else count d) h

sum_over-perm :
    (count : Interface → ℕ) {ds es : List Interface}
    → Permᴰ ds es
    → sum_over count ds ≡ sum_over count es
unfolding sum_over
sum_over-perm count Permᴰ.nil = refl
sum_over-perm count (Permᴰ.cons h p) = omega (arith, counts-ap count h, sum_over-perm count p)
sum_over-perm count (Permᴰ.swap h k) = omega (arith, counts-ap count h, counts-ap count k)
sum_over-perm count (Permᴰ.trans p q) = sum_over-perm count p ∙ sum_over-perm count q

abbrev pub received : Interface → ℕ
received d = d.total_received

abbrev pub transmitted : Interface → ℕ
transmitted d = d.total_transmitted

abbrev totals_over : ℕ → ℕ → List Interface → ℕ × ℕ
totals_over a b ds = (cap (a + sum_over received ds), cap (b + sum_over transmitted ds))

add_interfaces-cap :
    (ds : List Interface) (a b : ℕ) → add_interfaces ds (cap a, cap b) ≡ totals_over a b ds
unfolding add_interfaces sum_over
add_interfaces-cap [] a b = ground arith
add_interfaces-cap (d ∷ ds) a b = elim (Bool-cases (text_eq d.name (codes "lo"))) [
  | inl lo ↦ rw lo (add_interfaces-cap ds a b ∙ regroup_none)
  | inr other ↦
      rw (other, saturating_add-cap a d.total_received, saturating_add-cap b d.total_transmitted)
        (add_interfaces-cap ds (a + d.total_received) (b + d.total_transmitted) ∙ regroup)
]
  where
    regroup : totals_over (a + d.total_received) (b + d.total_transmitted) ds ≡ (
      cap (a + (d.total_received + sum_over received ds)),
      cap (b + (d.total_transmitted + sum_over transmitted ds)),
    )
    regroup = ground arith

    regroup_none :
        totals_over a b ds
        ≡ (cap (a + (0 + sum_over received ds)), cap (b + (0 + sum_over transmitted ds)))
    regroup_none = ground arith

abbrev capped_sums : List Interface → ℕ × ℕ
capped_sums ds = (cap (sum_over received ds), cap (sum_over transmitted ds))

from_zero : (xs : List Interface) → totals_over 0 0 xs ≡ capped_sums xs
from_zero xs = ground arith

module _ {F : Type 0} ⦃f : Float F⦄ (secs : ℕ → ℕ → F) where
  -- In whatever order the map yields the interfaces, the throughput and the reading that is kept are
  -- the same, and the reading holds the sums of the counters over all interfaces but `lo`, capped at
  -- the largest `u64`.
  pub collect_throughput-perm :
      (ds es : List Interface) (p : Permᴰ ds es) (now : ℕ) (prev : Option NetIoPrev)
      → (collect_throughput secs ds now prev ≡ collect_throughput secs es now prev)
        × ((collect_throughput secs ds now prev).1
            ≡ some (record {
              at = now;
              recv = cap (sum_over received ds);
              sent = cap (sum_over transmitted ds);
            }))
  unfolding collect_throughput
  collect_throughput-perm ds es p now prev = (
    ap
        (λ t.
          let new : NetIoPrev = record { at = now; recv = t.0; sent = t.1 } in
          (throughput_since secs new prev, some new))
        (totals ds ∙ same ∙ sym (totals es)),
    ap (λ t. some (record { at = now; recv = t.0; sent = t.1 })) (totals ds),
  )
    where
      totals : (xs : List Interface) → add_interfaces xs (0, 0) ≡ capped_sums xs
      totals xs = add_interfaces-cap xs 0 0 ∙ from_zero xs

      same : capped_sums ds ≡ capped_sums es
      same = rw (sum_over-perm received p, sum_over-perm transmitted p)
