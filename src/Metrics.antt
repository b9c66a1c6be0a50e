-- ===== src/Metrics.antt =====
-- metrics/mod.rs: the rounding helpers, and the collectors below.
pub mod Process
pub mod Rate
pub mod Net
pub mod Memory
pub mod Platform
pub mod Processor
pub mod Disk
use vigil_collector.Prelude.{ℕ, zero, suc}
use vigil_collector.Float.{Float}

module _ {F : Type 0} ⦃f : Float F⦄ where
  unfoldable pub round2 : F → F
  round2 x = f.div (f.round (f.mul x (f.lit 100 0))) (f.lit 100 0)

  unfoldable pub round1 : F → F
  round1 x = f.div (f.round (f.mul x (f.lit 10 0))) (f.lit 10 0)

  -- `x.powi(n)`.
  unfoldable pub powi : F → ℕ → F
  powi x zero = f.lit 1 0
  powi x (suc n) = f.mul x (powi x n)

  unfoldable pub bytes_to_gib : ℕ → F
  unfolding round2 powi
  bytes_to_gib x = round2 (f.div (f.of_u64 x) (powi (f.lit 1024 0) 3))
