-- ===== src/Metrics/Disk/Usage.antt =====
-- metrics/disk.rs: the usage of one mount.
use vigil_collector.Prelude.{ℕ, ◌+◌, ◌%◌, ◌^◌, Option, none, some, ltb, if◌then◌else◌}
use vigil_collector.Float.{Float}
use vigil_collector.Text.Number.{saturating_mul, saturating_sub}
use vigil_collector.Metrics.{bytes_to_gib, round1}

-- The fields of `libc::statvfs` that the code reads, as `u64`.
pub record StatVfs : Type 0 where
  pub f_frsize : ℕ
  pub f_blocks : ℕ
  pub f_bfree : ℕ
  pub f_bavail : ℕ

pub record Usage (F : Type 0) : Type 0 where
  pub total : ℕ
  pub used : ℕ
  pub free : ℕ
  pub percent : F

-- What a mount shows of itself, in GiB.
pub record MountUsage (F : Type 0) : Type 0 where
  pub total : F
  pub used : F
  pub free : F
  pub percent : F

module _ {F : Type 0} ⦃f : Float F⦄ where
  -- `round1(used as f64 / denom as f64 * 100.0)`, and 0 of nothing. The sum `used + free` of the
  -- caller is taken in `u64`, where it wraps around in a release build.
  unfoldable pub percent_of : ℕ → ℕ → F
  unfolding round1
  percent_of used denom =
      if ltb 0 denom
      then round1 (f.mul (f.div (f.of_u64 used) (f.of_u64 denom)) (f.lit 100 0))
      else f.lit 0 0

  unfoldable pub statvfs_usage : Option StatVfs → Option (Usage F)
  unfolding saturating_mul percent_of
  statvfs_usage none = none
  statvfs_usage (some st) =
      let total = saturating_mul st.f_blocks st.f_frsize in
      let used = saturating_mul (saturating_sub st.f_blocks st.f_bfree) st.f_frsize in
      let free = saturating_mul st.f_bavail st.f_frsize in
      some (record {
        total = total;
        used = used;
        free = free;
        percent = percent_of used ((used + free) % 2 ^ 64);
      })

  unfoldable pub usage_for_mount : Option StatVfs → ℕ → ℕ → MountUsage F
  unfolding statvfs_usage percent_of bytes_to_gib
  usage_for_mount st fallback_total fallback_avail =
      let fallback_used = saturating_sub fallback_total fallback_avail in
      elim (statvfs_usage st) [
        | some u ↦ record {
          total = bytes_to_gib u.total;
          used = bytes_to_gib u.used;
          free = bytes_to_gib u.free;
          percent = u.percent;
        }
        | none ↦ record {
          total = bytes_to_gib fallback_total;
          used = bytes_to_gib fallback_used;
          free = bytes_to_gib fallback_avail;
          percent = percent_of fallback_used fallback_total;
        }
      ]
