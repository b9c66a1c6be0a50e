-- ===== src/Metrics/Disk/Counters.antt =====
-- metrics/disk.rs: the I/O counters of the whole disks, and their rates.
use vigil_collector.Prelude.{
  ℕ, ◌*◌, ◌%◌, ◌^◌, not, ◌||◌, Option, none, some, List, [], ◌∷◌, ltb, if◌then◌else◌, length,
  get_elem?,
}
use vigil_collector.Float.{Float}
use vigil_collector.Text.{Text, codes, starts_with, lines_from, lines, words_from, split_whitespace}
use vigil_collector.Text.Number.{saturating_add, parse_u64}
use vigil_collector.Snapshot.{DiskIo, no_io}
use vigil_collector.Metrics.Rate.{rate}
use vigil_collector.Metrics.Disk.Partitions.{contains_name}

-- `/sys/block` holds an entry for each whole disk; `none` where it cannot be read.
unfoldable pub keep_disks : List Text → List Text
unfolding starts_with
keep_disks [] = []
keep_disks (name ∷ names) =
    let rest = keep_disks names in
    if starts_with (codes "loop") name || starts_with (codes "ram") name then rest else name ∷ rest

unfoldable pub whole_disks : Option (List Text) → List Text
unfolding keep_disks
whole_disks none = []
whole_disks (some names) = keep_disks names

pub record DiskStats : Type 0 where
  pub read_ops : ℕ
  pub read_sectors : ℕ
  pub write_ops : ℕ
  pub write_sectors : ℕ

-- `f[i]`, where the caller has seen that the line has 14 fields.
abbrev pub field_at : List Text → ℕ → Text
field_at fs i = elim (get_elem? fs i) [ none ↦ [] | some t ↦ t ]

-- `f[i].parse().unwrap_or(0)`.
unfoldable pub field_number : List Text → ℕ → ℕ
unfolding parse_u64
field_number fs i = elim (parse_u64 (field_at fs i)) [ none ↦ 0 | some n ↦ n ]

-- One round of the loop over the lines.
unfoldable pub add_line : List Text → DiskStats → List Text → DiskStats
unfolding contains_name field_number saturating_add
add_line allowed s fs =
    if ltb (length fs) 14
    then s
    else if not (contains_name allowed (field_at fs 2))
    then s
    else record {
      read_ops = saturating_add s.read_ops (field_number fs 3);
      read_sectors = saturating_add s.read_sectors (field_number fs 5);
      write_ops = saturating_add s.write_ops (field_number fs 7);
      write_sectors = saturating_add s.write_sectors (field_number fs 9);
    }

unfoldable pub add_lines : List Text → DiskStats → List Text → DiskStats
unfolding add_line words_from
add_lines allowed s [] = s
add_lines allowed s (line ∷ more) =
    add_lines allowed (add_line allowed s (split_whitespace line)) more

pub record DiskTotals : Type 0 where
  pub read_bytes : ℕ
  pub write_bytes : ℕ
  pub read_ops : ℕ
  pub write_ops : ℕ

abbrev pub no_stats : DiskStats
no_stats = record { read_ops = 0; read_sectors = 0; write_ops = 0; write_sectors = 0 }

-- The products are taken in `u64`, where they wrap around in a release build.
unfoldable pub read_diskstats : Option Text → Option (List Text) → Option DiskTotals
unfolding add_lines whole_disks lines_from
read_diskstats none sys_block = none
read_diskstats (some raw) sys_block =
    let s = add_lines (whole_disks sys_block) no_stats (lines raw) in
    some (record {
      read_bytes = s.read_sectors * 512 % 2 ^ 64;
      write_bytes = s.write_sectors * 512 % 2 ^ 64;
      read_ops = s.read_ops;
      write_ops = s.write_ops;
    })

pub record DiskIoPrev : Type 0 where
  pub at : ℕ
  pub totals : DiskTotals

module _ {F : Type 0} ⦃f : Float F⦄ where
  -- The rates between two readings, `elapsed` seconds apart.
  unfoldable pub io_rates : DiskTotals → DiskTotals → F → DiskIo
  unfolding rate
  io_rates new old elapsed = record {
    read_bytes_per_sec = rate new.read_bytes old.read_bytes elapsed;
    write_bytes_per_sec = rate new.write_bytes old.write_bytes elapsed;
    read_iops = rate new.read_ops old.read_ops elapsed;
    write_iops = rate new.write_ops old.write_ops elapsed;
  }

  unfoldable pub io_since : (ℕ → ℕ → F) → ℕ → DiskTotals → Option DiskIoPrev → DiskIo
  unfolding io_rates
  io_since secs now new none = no_io
  io_since secs now new (some last) =
      let elapsed = secs last.at now in
      if f.le elapsed (f.lit 0 0) then no_io else io_rates new last.totals elapsed

  -- `secs` is the time between two instants, in seconds.
  unfoldable pub collect_io :
      (ℕ → ℕ → F) → Option DiskTotals → ℕ → Option DiskIoPrev → DiskIo × Option DiskIoPrev
  unfolding io_since
  collect_io secs none now prev = (no_io, prev)
  collect_io secs (some new) now prev =
      (io_since secs now new prev, some (record { at = now; totals = new }))
