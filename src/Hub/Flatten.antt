-- ===== src/Hub/Flatten.antt =====
-- hub/flatten.rs: the snapshot as a map of metrics.
pub mod Mounts
pub mod Sizes
mod Tests
use vigil_collector.Prelude.{
  ℕ, ◌^◌, min, Bool, not, ◌&&◌, ◌||◌, none, some, List, [], ◌∷◌, ◌++◌, if◌then◌else◌,
}
use vigil_collector.Float.{Float}
use vigil_collector.Text.{Text, codes, is_empty, starts_with}
use vigil_collector.BTree.{insert_key}
use vigil_collector.Snapshot.{Snapshot, DiskInfo, Cpu, LoadAvg}
use vigil_collector.Metrics.{powi}

-- `1u64 << 41`.
abbrev pub bytes_ceiling : ℕ
bytes_ceiling = 2 ^ 41

abbrev pub processes_max : ℕ
processes_max = 25

abbrev pub Metrics : Type 0 → Type 0
Metrics F = List (Text × F)

-- The mounts that the loop passes over.
unfoldable pub is_skipped : Text → Bool
unfolding starts_with
is_skipped mount =
    is_empty mount
    || starts_with (codes "/snap/") mount
    || starts_with (codes "/var/lib/docker/") mount
    || starts_with (codes "/run/docker/") mount

module _ {F : Type 0} ⦃f : Float F⦄ where
  unfoldable pub gib_to_bytes : F → ℕ
  unfolding powi
  gib_to_bytes value = min (f.to_u64 (f.mul value (powi (f.lit 1024 0) 3))) bytes_ceiling

  unfoldable pub put_cpu : Cpu F → Metrics F → Metrics F
  unfolding insert_key
  put_cpu cpu out =
      let out = insert_key (codes "cpu.usage") cpu.usage out in
      let out =
        if not (f.eq cpu.freq (f.lit 0 0))
        then insert_key (codes "cpu.freq_mhz") cpu.freq out
        else out in
      let out : Metrics F = elim cpu.load [
        | none ↦ out
        | some load ↦ insert_key (codes "cpu.load_15m") load.fifteen (
            insert_key (codes "cpu.load_5m") load.five
              (insert_key (codes "cpu.load_1m") load.one out))
      ] in
      if f.is_finite cpu.temp && not (f.eq cpu.temp (f.lit 0 0))
      then insert_key (codes "cpu.temp_c") cpu.temp out
      else out

  unfoldable pub put_totals : Snapshot F → Metrics F → Metrics F
  unfolding insert_key gib_to_bytes
  put_totals s out =
      let out = insert_key (codes "mem.total_bytes") (f.of_u64 (gib_to_bytes s.mem.total)) out in
      let out = insert_key (codes "mem.used_bytes") (f.of_u64 (gib_to_bytes s.mem.used)) out in
      let out = insert_key (codes "mem.free_bytes") (f.of_u64 (gib_to_bytes s.mem.free)) out in
      let out = insert_key (codes "mem.percent") s.mem.percent out in
      let out =
        insert_key (codes "disk.io.read_bytes_per_s") (f.of_u64 s.disk_io.read_bytes_per_sec) out in
      let out =
        insert_key (codes "disk.io.write_bytes_per_s") (f.of_u64 s.disk_io.write_bytes_per_sec)
          out in
      let out = insert_key (codes "disk.io.read_iops") (f.of_u64 s.disk_io.read_iops) out in
      let out = insert_key (codes "disk.io.write_iops") (f.of_u64 s.disk_io.write_iops) out in
      let out = insert_key (codes "net.rx_bytes_per_s") (f.of_u64 s.network.rx_bytes_per_sec) out in
      insert_key (codes "net.tx_bytes_per_s") (f.of_u64 s.network.tx_bytes_per_sec) out

  -- One round of the loop over the disks.
  unfoldable pub put_disk : DiskInfo F → Metrics F → Metrics F
  unfolding insert_key gib_to_bytes is_skipped
  put_disk d out =
      if is_skipped d.mountpoint
      then out
      else insert_key (codes "disk.percent|" ++ d.mountpoint) d.percent (
          insert_key (codes "disk.used_bytes|" ++ d.mountpoint) (f.of_u64 (gib_to_bytes d.used)) (
            insert_key (codes "disk.total_bytes|" ++ d.mountpoint) (f.of_u64 (gib_to_bytes d.total))
              out))

  unfoldable pub put_disks : List (DiskInfo F) → Metrics F → Metrics F
  unfolding put_disk
  put_disks [] out = out
  put_disks (d ∷ ds) out = put_disks ds (put_disk d out)

  unfoldable pub flatten : Snapshot F → Metrics F
  unfolding put_cpu put_totals put_disks
  flatten s = put_disks s.disks (put_totals s (put_cpu s.cpu []))
