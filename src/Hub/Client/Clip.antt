-- ===== src/Hub/Client/Clip.antt =====
-- hub/client.rs: `clip`, on byte offsets of UTF-8.
use vigil_collector.Prelude.{
  ℕ, zero, suc, ◌+◌, ◌-◌, ◌≤◌, ◌<◌, ◌≡◌, refl, sym, ap, ◌∙◌, subst, inl, inr, Bool, true, false,
  ◌&&◌, ◌||◌, Option, none, some, [], ◌∷◌, ◌++◌, arith, leb, ◌==◌, if◌then◌else◌, Bool-cases,
}
use vigil_collector.Text.{Text, len_utf8, byte_len}
use vigil_collector.Text.Laws.{len_utf8_bounds}

-- `s.is_char_boundary(i)`.
unfoldable pub is_char_boundary : Text → ℕ → Bool
unfolding len_utf8
is_char_boundary [] i = i == 0
is_char_boundary (c ∷ s) i = (i == 0) || (leb (len_utf8 c) i && is_char_boundary s (i - len_utf8 c))

-- `while !s.is_char_boundary(end) && end > 0 { end -= 1; }`.
unfoldable pub back_to_boundary : Text → ℕ → ℕ
unfolding is_char_boundary
back_to_boundary s zero = 0
back_to_boundary s (suc end) =
    let back = back_to_boundary s end in if is_char_boundary s (suc end) then suc end else back

-- `&s[..end]`; `none` is the panic at an offset that is no boundary.
unfoldable pub slice_to : Text → ℕ → Option Text
unfolding len_utf8
slice_to [] end = if end == 0 then some [] else none
slice_to (c ∷ s) end =
    let rest : Option Text = elim (slice_to s (end - len_utf8 c)) [
      | none ↦ none
      | some t ↦ some (c ∷ t)
    ] in
    if end == 0 then some [] else if leb (len_utf8 c) end then rest else none

unfoldable pub clip : Text → ℕ → Option Text
unfolding byte_len back_to_boundary slice_to
clip s max = if leb (byte_len s) max then some s else slice_to s (back_to_boundary s max)

-- The longest prefix of at most `max` bytes.
unfoldable pub prefix_within : ℕ → Text → Text
unfolding len_utf8
prefix_within max [] = []
prefix_within max (c ∷ s) =
    let rest = c ∷ prefix_within (max - len_utf8 c) s in if leb (len_utf8 c) max then rest else []

byte_len-prefix_within : (max : ℕ) (s : Text) → byte_len (prefix_within max s) ≤ max
unfolding prefix_within byte_len
byte_len-prefix_within max [] = omega arith
byte_len-prefix_within max (c ∷ s) = ground (arith, byte_len-prefix_within (max - len_utf8 c) s)

prefix_within_all : (max : ℕ) (s : Text) → byte_len s ≤ max → prefix_within max s ≡ s
unfolding prefix_within byte_len
prefix_within_all max [] h = refl
prefix_within_all max (c ∷ s) h = ground (arith, prefix_within_all (max - len_utf8 c) s)

boundary_past :
    (c : ℕ) (s : Text) (i : ℕ) → is_char_boundary (c ∷ s) (len_utf8 c + i) ≡ is_char_boundary s i
unfolding is_char_boundary
boundary_past c s i =
    let w = len_utf8_bounds c in
    let back : len_utf8 c + i - len_utf8 c ≡ i = omega arith in rw back (ground arith)

boundary_inside :
    (c : ℕ) (s : Text) (i : ℕ) → suc i < len_utf8 c → is_char_boundary (c ∷ s) (suc i) ≡ false
unfolding is_char_boundary
boundary_inside c s i h = ground arith

back_at :
    (s : Text) (n : ℕ) → is_char_boundary s (suc n) ≡ true → back_to_boundary s (suc n) ≡ suc n
unfolding back_to_boundary
back_at s n h = rw h

back_on :
    (s : Text) (n : ℕ)
    → is_char_boundary s (suc n) ≡ false
    → back_to_boundary s (suc n) ≡ back_to_boundary s n
unfolding back_to_boundary
back_on s n h = rw h

boundary_zero : (s : Text) → is_char_boundary s 0 ≡ true
unfolding is_char_boundary
boundary_zero [] = refl
boundary_zero (c ∷ s) = refl

-- From past the first character, going back stays past it and goes as in the rest.
back_past :
    (c : ℕ) (s : Text) (k : ℕ)
    → back_to_boundary (c ∷ s) (len_utf8 c + k) ≡ len_utf8 c + back_to_boundary s k
unfolding back_to_boundary
back_past c s zero =
    let w = len_utf8_bounds c in
    let e : len_utf8 c + 0 ≡ suc (len_utf8 c - 1) = omega arith in
    let here : is_char_boundary (c ∷ s) (suc (len_utf8 c - 1)) ≡ true =
      subst (λ i. is_char_boundary (c ∷ s) i ≡ true) e (boundary_past c s 0 ∙ boundary_zero s) in
    ap (back_to_boundary (c ∷ s)) e ∙ back_at (c ∷ s) (len_utf8 c - 1) here ∙ sym e
back_past c s (suc k) =
    let e : len_utf8 c + suc k ≡ suc (len_utf8 c + k) = omega arith in
    let there = ap (is_char_boundary (c ∷ s)) (sym e) ∙ boundary_past c s (suc k) in
    ap (back_to_boundary (c ∷ s)) e ∙ elim (Bool-cases (is_char_boundary s (suc k))) [
      | inl at ↦
          back_at (c ∷ s) (len_utf8 c + k) (there ∙ at)
          ∙ sym e
          ∙ ap (◌+◌ (len_utf8 c)) (sym (back_at s k at))
      | inr off ↦
          back_on (c ∷ s) (len_utf8 c + k) (there ∙ off)
          ∙ back_past c s k
          ∙ ap (◌+◌ (len_utf8 c)) (sym (back_on s k off))
    ]

-- From inside the first character, going back ends at 0.
back_inside : (c : ℕ) (s : Text) (i : ℕ) → i < len_utf8 c → back_to_boundary (c ∷ s) i ≡ 0
unfolding back_to_boundary
back_inside c s zero h = refl
back_inside c s (suc i) h =
    back_on (c ∷ s) i (boundary_inside c s i h) ∙ back_inside c s i (omega arith)

back_empty : (i : ℕ) → back_to_boundary [] i ≡ 0
unfolding back_to_boundary is_char_boundary
back_empty zero = refl
back_empty (suc i) = ground (arith, back_empty i)

slice_to-past :
    (c : ℕ) (s t : Text) (k : ℕ)
    → slice_to s k ≡ some t
    → slice_to (c ∷ s) (len_utf8 c + k) ≡ some (c ∷ t)
unfolding slice_to
slice_to-past c s t k h =
    let w = len_utf8_bounds c in
    let back : len_utf8 c + k - len_utf8 c ≡ k = omega arith in rw (back, h) (ground arith)

slice_to_boundary :
    (s : Text) (max : ℕ) → slice_to s (back_to_boundary s max) ≡ some (prefix_within max s)
unfolding prefix_within slice_to
slice_to_boundary [] max = rw (back_empty max)
slice_to_boundary (c ∷ s) max = elim (Bool-cases (leb (len_utf8 c) max)) [
  | inl fits ↦
      let k = max - len_utf8 c in
      let e : max ≡ len_utf8 c + k = ground arith in
      ap (λ m. slice_to (c ∷ s) (back_to_boundary (c ∷ s) m)) e
      ∙ ap (slice_to (c ∷ s)) (back_past c s k)
      ∙ slice_to-past c s (prefix_within k s) (back_to_boundary s k) (slice_to_boundary s k)
      ∙ rw fits refl
  | inr over ↦ rw (back_inside c s max (ground arith), over)
]

clip-eq-prefix_within : (s : Text) (max : ℕ) → clip s max ≡ some (prefix_within max s)
unfolding clip
clip-eq-prefix_within s max = elim (Bool-cases (leb (byte_len s) max)) [
  | inl fits ↦ rw (fits, prefix_within_all max s (ground arith))
  | inr over ↦ rw over (slice_to_boundary s max)
]

-- Nothing is left, or the next character would not fit.
abbrev pub IsCut : ℕ → Text → Text → Type 0
IsCut max t [] = Unit {0}
IsCut max t (c ∷ rest) = max < byte_len t + len_utf8 c

cut_off : ℕ → Text → Text
cut_off max [] = []
cut_off max (c ∷ s) =
    let rest = cut_off (max - len_utf8 c) s in if leb (len_utf8 c) max then rest else c ∷ s

prefix-append-cut_off : (max : ℕ) (s : Text) → s ≡ prefix_within max s ++ cut_off max s
unfolding prefix_within cut_off
prefix-append-cut_off max [] = refl
prefix-append-cut_off max (c ∷ s) = ground (arith, prefix-append-cut_off (max - len_utf8 c) s)

IsCut-cons :
    (max : ℕ) (c : ℕ) (t rest : Text)
    → len_utf8 c ≤ max
    → IsCut (max - len_utf8 c) t rest
    → IsCut max (c ∷ t) rest
unfolding byte_len
IsCut-cons max c t [] le h = tt
IsCut-cons max c t (d ∷ rest) le h = omega arith

prefix_within-IsCut : (max : ℕ) (s : Text) → IsCut max (prefix_within max s) (cut_off max s)
unfolding prefix_within cut_off
prefix_within-IsCut max [] = tt
prefix_within-IsCut max (c ∷ s) = elim (Bool-cases (leb (len_utf8 c) max)) [
  | inl fits ↦ rw fits (
      IsCut-cons max c (prefix_within (max - len_utf8 c) s) (cut_off (max - len_utf8 c) s)
        (ground arith) (prefix_within-IsCut (max - len_utf8 c) s))
  | inr over ↦ rw over (unfold byte_len in ground arith)
]

-- `clip` never panics: for every text and limit it returns a prefix of whole characters of at most
-- `max` bytes, and it is the longest one: the whole text, or the next character does not fit.
pub clip_longest :
    (s : Text) (max : ℕ)
    → (t : Text) × (rest : Text) × (clip s max ≡ some t)
      × (s ≡ t ++ rest)
      × (byte_len t ≤ max)
      × IsCut max t rest
clip_longest s max = (
  prefix_within max s,
  cut_off max s,
  clip-eq-prefix_within s max,
  prefix-append-cut_off max s,
  byte_len-prefix_within max s,
  prefix_within-IsCut max s,
)
