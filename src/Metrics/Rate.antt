-- ===== src/Metrics/Rate.antt =====
-- The rates of metrics/disk.rs and metrics/net.rs: the growth of a counter over the time between two
-- readings. The clock is an argument: `at` is an `Instant`, and the difference of two, in seconds, is a
-- function of the model's caller.
use vigil_collector.Prelude.{ℕ}
use vigil_collector.Float.{Float}
use vigil_collector.Text.Number.{saturating_sub}

module _ {F : Type 0} ⦃f : Float F⦄ where
  -- `(new.saturating_sub(old) as f64 / elapsed).round() as u64`.
  unfoldable pub rate : ℕ → ℕ → F → ℕ
  rate new old elapsed = f.to_u64 (f.round (f.div (f.of_u64 (saturating_sub new old)) elapsed))
