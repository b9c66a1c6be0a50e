-- ===== src/Metrics/Disk/Tests.antt =====
-- Runs of the disk collectors, and their theorems at concrete readings.
use vigil_collector.Prelude.{
  ℕ, ◌+◌, ◌-◌, ◌*◌, ◌≡◌, refl, Option, none, some, List, [], ◌∷◌, ◌++◌, arith, length,
}
use vigil_collector.Text.{Text, codes, text_eq}
use vigil_collector.Float.Millis.{Millis, millis_float}
use vigil_collector.Snapshot.{no_io}
use vigil_collector.Metrics.Disk.Usage.{StatVfs, Usage, percent_of, statvfs_usage}
use vigil_collector.Metrics.Disk.Partitions.{SysDisk, collect_all}
use vigil_collector.Metrics.Disk.Counters.{
  DiskTotals, no_stats, add_lines, read_diskstats, collect_io,
}
use vigil_collector.Metrics.Disk.Laws.{
  cap, column_sum, add_lines-eq-sums, IsSane, statvfs_usage_exact, between, prev_after,
  collect_io_history,
}

abbrev sda_line : Text
sda_line = codes "   8       0 sda 10 0 20 0 30 0 40 0 0 0 0"

abbrev part_line : Text
part_line = codes "   8       1 sda1 9 0 19 0 29 0 39 0 0 0 0"

whole_disk_only :
    read_diskstats (some (sda_line ++ (10 ∷ part_line))) (some (codes "sda" ∷ codes "loop0" ∷ []))
    ≡ some (record { read_bytes = 10240; write_bytes = 20480; read_ops = 10; write_ops = 30 })
unfolding read_diskstats text_eq
whole_disk_only = refl

abbrev root_disk : SysDisk
root_disk = record {
  name = codes "/dev/sda1";
  mount_point = codes "/";
  file_system = codes "ext4";
  total_space = 4096;
  available_space = 1024;
}

abbrev tmp_disk : SysDisk
tmp_disk = record root_disk { name = codes "tmpfs"; file_system = codes "tmpfs" }

one_partition :
    length (
      collect_all {F = Millis}
        (λ m. none)
        (some (codes "nodev\ttmpfs\n\text4\n"))
        (root_disk ∷ tmp_disk ∷ []))
    ≡ 1
unfolding collect_all
one_partition = refl

add_lines-eq-sums_example :
    add_lines (codes "sda" ∷ []) no_stats (sda_line ∷ part_line ∷ []) ≡ record {
      read_ops = cap (column_sum (codes "sda" ∷ []) 3 (sda_line ∷ part_line ∷ []));
      read_sectors = cap (column_sum (codes "sda" ∷ []) 5 (sda_line ∷ part_line ∷ []));
      write_ops = cap (column_sum (codes "sda" ∷ []) 7 (sda_line ∷ part_line ∷ []));
      write_sectors = cap (column_sum (codes "sda" ∷ []) 9 (sda_line ∷ part_line ∷ []));
    }
add_lines-eq-sums_example = add_lines-eq-sums (codes "sda" ∷ []) (sda_line ∷ part_line ∷ [])

abbrev ext4 : StatVfs
ext4 = record { f_frsize = 4096; f_blocks = 1000; f_bfree = 400; f_bavail = 350 }

ext4-IsSane : IsSane ext4
ext4-IsSane = record { bfree_le = omega arith; bavail_le = omega arith; size_lt = omega arith }

statvfs_usage_exact_example :
    (u : Usage Millis) × (statvfs_usage (some ext4) ≡ some u)
    × (u.total ≡ 1000 * 4096)
    × (u.used + 400 * 4096 ≡ u.total)
    × (u.used + u.free + (400 - 350) * 4096 ≡ u.total)
    × (u.percent ≡ percent_of u.used (u.used + u.free))
statvfs_usage_exact_example = statvfs_usage_exact ext4 ext4-IsSane

abbrev secs : ℕ → ℕ → Millis
secs from to = some (to - from)

abbrev totals : ℕ → DiskTotals
totals n = record { read_bytes = n; write_bytes = n; read_ops = n; write_ops = n }

-- The reading between the two has failed.
collect_io_history_example :
    let history : List (Option DiskTotals × ℕ) =
      (none, 500) ∷ (some (totals 5000), 1000) ∷ (none, 1500) ∷ [] in
    ((collect_io secs (some (totals 9000)) 2000 (prev_after secs history none)).0
      ≡ between {F = Millis} (totals 9000) (totals 5000) (some 1000))
    × ((collect_io secs (some (totals 9000)) 2000 (prev_after secs ((none, 1500) ∷ []) none)).0
        ≡ no_io)
    × ((collect_io secs none 2000 (prev_after secs history none)).0 ≡ no_io)
collect_io_history_example =
    collect_io_history secs ((none, 500) ∷ []) (totals 5000) 1000 ((none, 1500) ∷ []) 2000
      (totals 9000) (refl, tt)
