-- ===== src/Hub/Flatten/Mounts.antt =====
-- hub/flatten.rs: which mounts show in the metrics, and with which disk's figures.
use vigil_collector.Prelude.{
  ◌*◌, ◌^◌, ◌≤◌, ◌≡◌, refl, not, ◌&&◌, Option, none, some, List, [], ◌∷◌, ◌++◌, arith,
  if◌then◌else◌,
}
use vigil_collector.Float.{Float}
use vigil_collector.Text.{Text, codes, text_eq}
use vigil_collector.Snapshot.{DiskInfo}
use vigil_collector.Hub.Flatten.{is_skipped, gib_to_bytes, bytes_ceiling}

-- The last disk of the list with the mount, if the mount is one that shows.
abbrev pub shown :
    {F : Type 0} → Text → List (DiskInfo F) → Option (DiskInfo F) → Option (DiskInfo F)
shown mount [] found = found
shown mount (d ∷ ds) found =
    shown mount ds
      (if not (is_skipped d.mountpoint) && text_eq d.mountpoint mount then some d else found)

-- The figures of a disk that show.
pub data Figure : Type 0 where
  total used percent : Figure

abbrev pub key : Figure → Text → Text
key total mount = codes "disk.total_bytes|" ++ mount
key used mount = codes "disk.used_bytes|" ++ mount
key percent mount = codes "disk.percent|" ++ mount

module _ {F : Type 0} ⦃f : Float F⦄ where
  -- Sizes are given in bytes.
  abbrev pub figure_of : Figure → DiskInfo F → F
  figure_of total d = f.of_u64 (gib_to_bytes d.total)
  figure_of used d = f.of_u64 (gib_to_bytes d.used)
  figure_of percent d = d.percent

  abbrev pub figure_or : Figure → Option F → Option (DiskInfo F) → Option F
  figure_or g o none = o
  figure_or g o (some d) = some (figure_of g d)

  -- No size in bytes is above the constant, which is 2 TiB.
  gib_to_bytes-le :
      (value : F) → (gib_to_bytes value ≤ bytes_ceiling) × (bytes_ceiling ≡ 2 * 1024 ^ 4)
  unfolding gib_to_bytes
  gib_to_bytes-le value = (omega arith, refl)
