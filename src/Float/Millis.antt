-- ===== src/Float/Millis.antt =====
-- A small model of the floats, for the tests: nonnegative numbers in thousandths, with `none` for NaN.
-- It shows that the laws can be met.
use vigil_collector.Prelude.{
  ℕ, ◌+◌, ◌*◌, ◌/◌, ◌^◌, ◌≤◌, ◌<◌, ◌≡◌, refl, Bool, true, false, Option, none, some, arith, ltb,
  leb, ◌==◌, if◌then◌else◌,
}
use vigil_collector.Float.{Float, ◌≼◌, IsOrdered, IsCast, IsTimed}
use vigil_collector.Text.Number.{max_u64}

abbrev pub Millis : Type 0
Millis = Option ℕ

abbrev on_numbers : (ℕ → ℕ → Bool) → Millis → Millis → Bool
on_numbers test (some a) (some b) = test a b
on_numbers test _ _ = false

abbrev lift : (ℕ → ℕ → Millis) → Millis → Millis → Millis
lift op (some a) (some b) = op a b
lift op _ _ = none

abbrev quotient : ℕ → ℕ → Millis
quotient a b = if b == 0 then none else some (a * 1000 / b)

abbrev rounded : Millis → Millis
rounded none = none
rounded (some a) = some ((a + 500) / 1000 * 1000)

-- `max` and `min` of the standard library return the other argument where one is NaN.
abbrev larger : Millis → Millis → Millis
larger none b = b
larger (some a) none = some a
larger (some a) (some b) = if ltb a b then some b else some a

abbrev smaller : Millis → Millis → Millis
smaller none b = b
smaller (some a) none = some a
smaller (some a) (some b) = if ltb a b then some a else some b

abbrev truncated : Millis → ℕ
truncated none = 0
truncated (some a) = let n = a / 1000 in if leb n max_u64 then n else max_u64

abbrev finite : Millis → Bool
finite none = false
finite (some a) = true

abbrev nanoseconds : Millis → Option ℕ
nanoseconds none = none
nanoseconds (some a) = some (a * 10 ^ 6)

instance abbrev pub millis_float : Float Millis
millis_float = record {
  lit = λ m k. some (m * 1000 / 10 ^ k);
  of_u64 = λ n. some (n * 1000);
  to_u64 = truncated;
  add = lift λ a b. some (a + b);
  mul = lift λ a b. some (a * b / 1000);
  div = lift quotient;
  round = rounded;
  max = larger;
  min = smaller;
  lt = on_numbers ltb;
  le = on_numbers leb;
  eq = on_numbers λ a b. a == b;
  is_finite = finite;
  from_secs = nanoseconds;
  as_secs = λ n. some (n / 10 ^ 6);
}

pub Millis-IsOrdered : IsOrdered Millis
Millis-IsOrdered = ground arith

truncated-lt : (a : Millis) → truncated a < 2 ^ 64
truncated-lt none = omega arith
truncated-lt (some a) = ground arith

pub Millis-IsCast : IsCast Millis
Millis-IsCast = record { to_u64-lt = truncated-lt }

pub Millis-IsTimed : IsTimed Millis
Millis-IsTimed = record {
  min_within = λ a n small h. ground arith;
  as_secs-mul_pos = λ d m k hd hm hk. ground arith;
  from_secs_within = within;
}
  where
    within :
        (a : Millis) (n : ℕ)
        → n ≤ 2 ^ 32
        → some 0 ≼ a
        → a ≼ some (n * 1000 / 10 ^ 0)
        → (m : ℕ) × (nanoseconds a ≡ some m) × (m ≤ n * 10 ^ 9)
    within none n small h le = absurd (cc)
    within (some a) n small h le = (a * 10 ^ 6, refl, ground arith)
