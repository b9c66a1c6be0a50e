-- ===== src/Text/Number.antt =====
-- Numbers in decimal: `{}` of a `u64` and `parse::<u64>()`, and the saturating operations.
pub mod Decimal
use mathlib.Core.Logic.{dite}
use mathlib.Core.WellFounded.{Acc, WellFounded}
use native.Mathlib.Decide.{dec_lt}
use vigil_collector.Prelude.{
  ℕ, zero, suc, ◌+◌, ◌-◌, ◌*◌, ◌/◌, ◌%◌, ◌^◌, ◌<◌, ◌&&◌, Option, none, some, [], ◌∷◌, arith, leb,
  ◌==◌, if◌then◌else◌,
}
use vigil_collector.Text.Defs.{Text}

abbrev pub max_u64 : ℕ
max_u64 = 2 ^ 64 - 1

-- `u64::saturating_add`, `saturating_sub` and `saturating_mul`.
unfoldable pub saturating_add : ℕ → ℕ → ℕ
saturating_add a b = if leb (a + b) max_u64 then a + b else max_u64

unfoldable pub saturating_mul : ℕ → ℕ → ℕ
saturating_mul a b = if leb (a * b) max_u64 then a * b else max_u64

-- Subtraction of the native numbers stops at 0, as `u64::saturating_sub` does.
abbrev pub saturating_sub : ℕ → ℕ → ℕ
saturating_sub a b = a - b

acc_below : (k n : ℕ) → n < k → Acc ◌<◌ n
acc_below zero n h = absurd (omega arith)
acc_below (suc k) n h = Acc.intro n λ m lt. acc_below k m (omega arith)

lt_wf : WellFounded ◌<◌
unfolding acc_below
lt_wf = record { apply = λ n. acc_below (suc n) n (omega arith) }

tenth_lt : {n : ℕ} → 0 < n → n / 10 < n
tenth_lt h = omega arith

digits_acc : (n : ℕ) → Acc ◌<◌ n → Text → Text
digits_acc n (Acc.intro _ smaller) out =
    dite (dec_lt 0 n)
      (λ h. digits_acc (n / 10) (smaller (n / 10) (tenth_lt h)) ((b'0' + n % 10) ∷ out)) (λ _. out)

-- `format!("{}", n)`.
unfoldable pub decimal : ℕ → Text
unfolding digits_acc lt_wf dec_lt tenth_lt
decimal n = if n == 0 then b'0' ∷ [] else digits_acc n (lt_wf.apply n) []

-- Digits behind the value `n` so far; `none` on another character and above `limit`.
unfoldable pub parse_digits : ℕ → Text → ℕ → Option ℕ
parse_digits limit [] n = some n
parse_digits limit (c ∷ s) n =
    let m = n * 10 + (c - b'0') in
    let rest = parse_digits limit s m in
    if (leb b'0' c && leb c b'9') && leb m limit then rest else none

unfoldable pub parse_nonempty : ℕ → Text → Option ℕ
unfolding parse_digits
parse_nonempty limit [] = none
parse_nonempty limit (c ∷ s) = parse_digits limit (c ∷ s) 0

-- `s.parse::<u64>().ok()`: one or more digits behind an optional plus sign.
unfoldable pub parse_u64 : Text → Option ℕ
unfolding parse_nonempty
parse_u64 [] = none
parse_u64 (c ∷ s) = if c == b'+' then parse_nonempty max_u64 s else parse_nonempty max_u64 (c ∷ s)
