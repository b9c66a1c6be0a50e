-- ===== src/Metrics/Memory.antt =====
-- metrics/mem.rs: `collect`, of the two readings of sysinfo that it takes.
use vigil_collector.Prelude.{ℕ, ltb, if◌then◌else◌}
use vigil_collector.Float.{Float}
use vigil_collector.Text.Number.{saturating_sub}
use vigil_collector.Snapshot.{Mem}
use vigil_collector.Metrics.{bytes_to_gib, round1}

unfoldable pub collect_mem : {F : Type 0} ⦃f : Float F⦄ → ℕ → ℕ → Mem F
unfolding bytes_to_gib round1
collect_mem ⦃f⦄ total available =
    let used = saturating_sub total available in
    record {
      total = bytes_to_gib total;
      used = bytes_to_gib used;
      free = bytes_to_gib available;
      percent =
          if ltb 0 total
          then round1 (f.mul (f.div (f.of_u64 used) (f.of_u64 total)) (f.lit 100 0))
          else f.lit 0 0;
    }
