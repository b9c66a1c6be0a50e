-- ===== src/Metrics/Disk/Partitions.antt =====
-- metrics/disk.rs: which mounts are listed, and which one is the root.
use vigil_collector.Prelude.{
  ℕ, Bool, false, not, ◌&&◌, ◌||◌, Option, none, some, List, [], ◌∷◌, if◌then◌else◌,
}
use vigil_collector.Float.{Float}
use vigil_collector.Text.{Text, codes, text_eq, strip_prefix, starts_with, trim, lines_from, lines}
use vigil_collector.Snapshot.{Disk, DiskInfo}
use vigil_collector.Metrics.Disk.Usage.{StatVfs, MountUsage, usage_for_mount}

-- The readings of `sysinfo::Disk`.
pub record SysDisk : Type 0 where
  pub name : Text
  pub mount_point : Text
  pub file_system : Text
  pub total_space : ℕ
  pub available_space : ℕ

abbrev pub root_mount : Text
root_mount = codes "/"

-- `disks.iter().find(|d| d.mount_point() == mount)`.
unfoldable pub find_mount : Text → List SysDisk → Option SysDisk
unfolding text_eq
find_mount mount [] = none
find_mount mount (d ∷ ds) =
    let later = find_mount mount ds in if text_eq d.mount_point mount then some d else later

unfoldable pub first_disk : List SysDisk → Option SysDisk
first_disk [] = none
first_disk (d ∷ ds) = some d

unfoldable pub or_else {ℓ} : {A : Type ℓ} → Option A → Option A → Option A
or_else none b = b
or_else (some a) b = some a

-- The set of nodev filesystems: the lines of /proc/filesystems that begin with "nodev".
unfoldable pub nodev_lines : List Text → List Text
unfolding strip_prefix trim
nodev_lines [] = codes "fuse.snapfuse" ∷ []
nodev_lines (line ∷ more) =
    let rest = nodev_lines more in
    elim (strip_prefix (codes "nodev") line) [ none ↦ rest | some t ↦ trim t ∷ rest ]

unfoldable pub nodev_filesystems : Option Text → List Text
unfolding nodev_lines lines_from
nodev_filesystems none = []
nodev_filesystems (some raw) = nodev_lines (lines raw)

unfoldable pub contains_name : List Text → Text → Bool
unfolding text_eq
contains_name [] t = false
contains_name (s ∷ ss) t = text_eq s t || contains_name ss t

-- The filter of `collect_all` on Linux.
unfoldable pub is_listed : List Text → SysDisk → Bool
unfolding starts_with contains_name
is_listed nodev d = starts_with (codes "/") d.name && not (contains_name nodev d.file_system)

module _ {F : Type 0} ⦃f : Float F⦄ where
  -- `Disk::default()`.
  abbrev pub no_disk : Disk F
  no_disk = record { total = f.lit 0 0; used = f.lit 0 0; free = f.lit 0 0; percent = f.lit 0 0 }

  unfoldable pub to_disk : MountUsage F → Disk F
  to_disk u = record { total = u.total; used = u.used; free = u.free; percent = u.percent }

  unfoldable pub to_disk_info : SysDisk → MountUsage F → DiskInfo F
  to_disk_info d u = record {
    device = d.name;
    mountpoint = d.mount_point;
    fstype = d.file_system;
    total = u.total;
    used = u.used;
    free = u.free;
    percent = u.percent;
  }

  -- `statvfs` is the system call, on the path of a mount.
  unfoldable pub collect_root : (Text → Option StatVfs) → List SysDisk → Disk F
  unfolding find_mount first_disk or_else usage_for_mount to_disk
  collect_root statvfs ds =
      elim (or_else (find_mount root_mount ds)
        (or_else (find_mount (codes "/") ds) (first_disk ds))) [
          | none ↦ no_disk
          | some d ↦
              to_disk (usage_for_mount (statvfs d.mount_point) d.total_space d.available_space)
        ]

  unfoldable pub collect_listed :
      (Text → Option StatVfs) → List Text → List SysDisk → List (DiskInfo F)
  unfolding is_listed usage_for_mount to_disk_info
  collect_listed statvfs nodev [] = []
  collect_listed statvfs nodev (d ∷ ds) =
      let rest = collect_listed statvfs nodev ds in
      if is_listed nodev d
      then to_disk_info d (usage_for_mount (statvfs d.mount_point) d.total_space d.available_space)
        ∷ rest
      else rest

  unfoldable pub collect_all :
      (Text → Option StatVfs) → Option Text → List SysDisk → List (DiskInfo F)
  unfolding collect_listed nodev_filesystems
  collect_all statvfs proc_filesystems ds =
      collect_listed statvfs (nodev_filesystems proc_filesystems) ds
