-- ===== src/Float.antt =====
-- `f64`, as far as the program uses it: a type with the operations that the code calls, and the laws
-- of IEEE 754 that a theorem assumes.
pub mod Millis
use vigil_collector.Prelude.{
  ℕ, ◌*◌, ◌^◌, ◌≤◌, ◌<◌, ◌≡◌, ◌⊎◌, Bool, true, false, not, Option, none, some, if◌then◌else◌,
}

pub record Float (F : Type 0) : Type 0 where
  -- The literal m / 10^k.
  pub lit : ℕ → ℕ → F
  -- `x as f64` and the saturating `x as u64`.
  pub of_u64 : ℕ → F
  pub to_u64 : F → ℕ
  pub add : F → F → F
  pub mul : F → F → F
  pub div : F → F → F
  -- `x.round()`, `x.max(y)`, `x.min(y)`.
  pub round : F → F
  pub max : F → F → F
  pub min : F → F → F
  pub lt : F → F → Bool
  pub le : F → F → Bool
  pub eq : F → F → Bool
  pub is_finite : F → Bool
  -- `Duration::from_secs_f64`, in nanoseconds, where `none` is its panic, and `as_secs_f64`.
  pub from_secs : F → Option ℕ
  pub as_secs : ℕ → F

pub data Cmp : Type 0 where
  less equal greater : Cmp

module _ {F : Type 0} ⦃f : Float F⦄ where
  -- `a.partial_cmp(&b)`.
  unfoldable pub partial_cmp : F → F → Option Cmp
  partial_cmp a b =
      if f.lt a b
      then some Cmp.less
      else if f.eq a b
      then some Cmp.equal
      else if f.lt b a
      then some Cmp.greater
      else none

  -- `a <= b`, which is false where one of the two is NaN.
  infix 4 ◌≼◌
  abbrev pub ◌≼◌ : F → F → Type 0
  a ≼ b = f.le a b ≡ true

-- NaN is the value that is not `<=` itself; away from it the order is total.
pub record IsOrdered (F : Type 0) ⦃f : Float F⦄ : Type 0 where
  pub refl_of_le : (a b : F) → a ≼ b → (a ≼ a) × (b ≼ b)
  pub le_trans : (a b c : F) → a ≼ b → b ≼ c → a ≼ c
  pub lt-eq-not-le : (a b : F) → a ≼ a → b ≼ b → f.lt a b ≡ not (f.le b a)
  pub le_total : (a b : F) → a ≼ a → b ≼ b → (a ≼ b) ⊎ (b ≼ a)
  pub ne_of_lt : (a b : F) → f.lt a b ≡ true → f.eq b a ≡ false

-- A cast to `u64` saturates: the result is a `u64` whatever the argument.
pub record IsCast (F : Type 0) ⦃f : Float F⦄ : Type 0 where
  pub to_u64-lt : (a : F) → f.to_u64 a < 2 ^ 64

-- `min`, and the durations as far as they are needed: of at most 2^64 nanoseconds, times a literal with few
-- digits, and back from at most 2^32 seconds, where a whole number of seconds is exact and rounding to a
-- nanosecond keeps the order.
pub record IsTimed (F : Type 0) ⦃f : Float F⦄ : Type 0 where
  pub min_within :
      (a : F) (n : ℕ)
      → n ≤ 2 ^ 32
      → f.lit 0 0 ≼ a
      → (f.lit 0 0 ≼ f.min a (f.lit n 0)) × (f.min a (f.lit n 0) ≼ f.lit n 0)
  pub as_secs-mul_pos :
      (d m k : ℕ) → d ≤ 2 ^ 64 → m ≤ 100 → k ≤ 9 → f.lit 0 0 ≼ f.mul (f.as_secs d) (f.lit m k)
  pub from_secs_within :
      (a : F) (n : ℕ)
      → n ≤ 2 ^ 32
      → f.lit 0 0 ≼ a
      → a ≼ f.lit n 0
      → (m : ℕ) × (f.from_secs a ≡ some m) × (m ≤ n * 10 ^ 9)
