-- ===== src/Text/Number/Decimal.antt =====
-- `{}` of a `u64`, and `parse::<u64>()` behind it.
use mathlib.Core.Logic.{dite}
use mathlib.Core.WellFounded.{Acc}
use native.Mathlib.Decide.{dec_lt}
use vigil_collector.Prelude.{
  ℕ, ◌+◌, ◌*◌, ◌/◌, ◌%◌, ◌≤◌, ◌<◌, ◌≡◌, refl, sym, inl, inr, ap, ◌∙◌, ◌≢◌, ◌&&◌, Bool, true, false,
  some, [], ◌∷◌, arith, leb, ◌==◌, if◌then◌else◌, All, Bool-cases,
}
use vigil_collector.Text.Defs.{Text}
use vigil_collector.Text.Number.{
  max_u64, lt_wf, tenth_lt, digits_acc, decimal, parse_digits, parse_nonempty, parse_u64,
}

abbrev pub is_digit : ℕ → Bool
is_digit c = leb b'0' c && leb c b'9'

abbrev pub AreDigits : Text → Type 0
AreDigits s = All (λ c. is_digit c ≡ true) s

digit_of : (d : ℕ) → d < 10 → is_digit (b'0' + d) ≡ true
digit_of d h = ground arith

digits_acc-digits :
    (n : ℕ) (a : Acc ◌<◌ n) (out : Text) → AreDigits out → AreDigits (digits_acc n a out)
unfolding digits_acc
digits_acc-digits n (Acc.intro _ smaller) out h =
    elim (dec_lt 0 n)
      as (λ d. AreDigits (
        dite d (λ h. digits_acc (n / 10) (smaller (n / 10) (tenth_lt h)) ((b'0' + n % 10) ∷ out))
          (λ _. out))) [
            | yes p ↦
                digits_acc-digits (n / 10) (smaller (n / 10) (tenth_lt p)) ((b'0' + n % 10) ∷ out)
                  (digit_of (n % 10) (omega arith), h)
            | no q ↦ h
          ]

pub decimal-digits : (n : ℕ) → AreDigits (decimal n)
unfolding decimal
decimal-digits n =
    elim (n == 0) as (λ b. AreDigits (if b then b'0' ∷ [] else digits_acc n (lt_wf.apply n) [])) [
      | true ↦ (refl, tt)
      | false ↦ digits_acc-digits n (lt_wf.apply n) [] tt
    ]

leb-true : (a b : ℕ) → a ≤ b → leb a b ≡ true
leb-true a b h = ground arith

-- One more digit.
parse_digits-cons :
    (limit d m : ℕ) (out : Text)
    → d < 10
    → m * 10 + d ≤ limit
    → parse_digits limit ((b'0' + d) ∷ out) m ≡ parse_digits limit out (m * 10 + d)
unfolding parse_digits
parse_digits-cons limit d m out h le = grind arith

-- Reading on behind the digits of `n`.
parse_digits-digits_acc :
    (limit n : ℕ) (a : Acc ◌<◌ n) (out : Text)
    → n ≤ limit
    → parse_digits limit (digits_acc n a out) 0 ≡ parse_digits limit out n
unfolding digits_acc
parse_digits-digits_acc limit n (Acc.intro _ smaller) out h =
    elim (dec_lt 0 n)
      as (λ d.
        parse_digits limit
          (dite d (λ h. digits_acc (n / 10) (smaller (n / 10) (tenth_lt h)) ((b'0' + n % 10) ∷ out))
            (λ _. out))
          0
        ≡ parse_digits limit out n) [
          | yes p ↦
              parse_digits-digits_acc limit (n / 10) (smaller (n / 10) (tenth_lt p))
                ((b'0' + n % 10) ∷ out) (omega arith)
              ∙ parse_digits-cons limit (n % 10) (n / 10) out (omega arith) (omega arith)
              ∙ ap (parse_digits limit out) (omega arith)
          | no q ↦ ap (parse_digits limit out) (omega arith)
        ]

positive_not_empty : (n : ℕ) → (n == 0) ≡ false → digits_acc n (lt_wf.apply n) [] ≢ []
unfolding parse_digits
positive_not_empty n nz z =
    let e : parse_digits n [] 0 ≡ parse_digits n [] n =
      sym (ap (λ s. parse_digits n s 0) z)
      ∙ parse_digits-digits_acc n n (lt_wf.apply n) [] (omega arith) in
    ground arith

pub decimal-not_empty : (n : ℕ) → decimal n ≢ []
unfolding decimal
decimal-not_empty n = elim (Bool-cases (n == 0)) [
  | inl z ↦ rw z (λ e. cc)
  | inr nz ↦ rw nz (positive_not_empty n nz)
]

-- A text that begins with a digit and reads as `n`.
parse_u64-digits :
    (s : Text) (n : ℕ)
    → AreDigits s
    → s ≢ []
    → parse_digits max_u64 s 0 ≡ some n
    → parse_u64 s ≡ some n
unfolding parse_u64 parse_nonempty
parse_u64-digits [] n d h e = absurd (h refl)
parse_u64-digits (c ∷ s) n (hc, d) h e = ground arith

decimal_positive :
    (n : ℕ) → (n == 0) ≡ false → n ≤ max_u64 → parse_u64 (digits_acc n (lt_wf.apply n) []) ≡ some n
decimal_positive n nz h =
    parse_u64-digits digits n (digits_acc-digits n (lt_wf.apply n) [] tt) (positive_not_empty n nz)
      value
  where
    digits : Text
    digits = digits_acc n (lt_wf.apply n) []

    value : parse_digits max_u64 digits 0 ≡ some n
    value = unfold parse_digits in parse_digits-digits_acc max_u64 n (lt_wf.apply n) [] h

zero_read : parse_u64 (b'0' ∷ []) ≡ some 0
unfolding parse_u64
zero_read = refl

zero_is : (n : ℕ) → (n == 0) ≡ true → 0 ≡ n
zero_is n z = ground arith

-- A number that fits in 64 bits is read back from its decimal digits.
pub parse_u64-decimal : (n : ℕ) → n ≤ max_u64 → parse_u64 (decimal n) ≡ some n
unfolding decimal
parse_u64-decimal n h = elim (Bool-cases (n == 0)) [
  | inl z ↦ rw z (zero_read ∙ ap some (zero_is n z))
  | inr nz ↦ rw nz (decimal_positive n nz h)
]
