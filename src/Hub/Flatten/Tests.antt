-- ===== src/Hub/Flatten/Tests.antt =====
-- Runs of the flattening, and its theorems at concrete disks.
use vigil_collector.Prelude.{ℕ, ◌≡◌, refl, true, some}
use vigil_collector.Text.{codes}
use Prim.Native.String.{String}
use vigil_collector.Float.Millis.{Millis, millis_float}
use vigil_collector.Snapshot.{DiskInfo}
use vigil_collector.Hub.Flatten.{is_skipped}
use vigil_collector.Hub.Flatten.Mounts.{used}

abbrev disk : String → ℕ → DiskInfo Millis
disk mount percent = record {
  device = codes "/dev/sda1";
  mountpoint = codes mount;
  fstype = codes "ext4";
  total = some 2000;
  used = some 1000;
  free = some 1000;
  percent = some percent;
}

snap_is_skipped : is_skipped (codes "/snap/core/1") ≡ true
unfolding is_skipped
snap_is_skipped = refl
