-- ===== src/Text/Defs.antt =====
-- The methods of `str` that the program calls, over code points.
use Prim.Native.Char.{code}
use Prim.Native.String.{String}
use mathlib.Core.List.{reverse}
use vigil_collector.Prelude.{
  ℕ, ◌+◌, Bool, true, false, ◌&&◌, ◌||◌, Option, none, some, List, [], ◌∷◌, ◌++◌, ltb, leb, ◌==◌,
  if◌then◌else◌,
}

abbrev pub Text : Type 0
Text = List ℕ

-- The code points of a literal.
abbrev pub codes : String → Text
codes String.[] = []
codes (String.◌∷◌ c s) = code c ∷ codes s

-- `s == t`.
unfoldable pub text_eq : Text → Text → Bool
text_eq [] [] = true
text_eq [] (d ∷ t) = false
text_eq (c ∷ s) [] = false
text_eq (c ∷ s) (d ∷ t) = (c == d) && text_eq s t

-- `s < t`: the order of UTF-8 bytes is the order of code points.
unfoldable pub text_lt : Text → Text → Bool
text_lt s [] = false
text_lt [] (d ∷ t) = true
text_lt (c ∷ s) (d ∷ t) = ltb c d || ((c == d) && text_lt s t)

-- `s.is_empty()`.
abbrev pub is_empty {ℓ} : {A : Type ℓ} → List A → Bool
is_empty [] = true
is_empty (c ∷ s) = false

-- `s.strip_prefix(p)`, the prefix first.
unfoldable pub strip_prefix : Text → Text → Option Text
strip_prefix [] s = some s
strip_prefix (p ∷ ps) [] = none
strip_prefix (p ∷ ps) (c ∷ s) = let rest = strip_prefix ps s in if p == c then rest else none

-- `s.starts_with(p)`, the prefix first.
unfoldable pub starts_with : Text → Text → Bool
starts_with [] s = true
starts_with (p ∷ ps) [] = false
starts_with (p ∷ ps) (c ∷ s) = (p == c) && starts_with ps s

-- `s.contains(p)`, the needle first.
unfoldable pub contains_text : Text → Text → Bool
unfolding starts_with
contains_text p [] = is_empty p
contains_text p (c ∷ s) = starts_with p (c ∷ s) || contains_text p s

-- `char::is_whitespace`: the Unicode property White_Space.
unfoldable pub is_whitespace : ℕ → Bool
is_whitespace c =
    (leb 9 c && leb c 13)
    || (c == 32)
    || (c == 0x85)
    || (c == 0xa0)
    || (c == 0x1680)
    || (leb 0x2000 c && leb c 0x200a)
    || (c == 0x2028)
    || (c == 0x2029)
    || (c == 0x202f)
    || (c == 0x205f)
    || (c == 0x3000)

-- Drops the leading characters that pass a test.
unfoldable pub trim_start_matches : (ℕ → Bool) → Text → Text
trim_start_matches p [] = []
trim_start_matches p (c ∷ s) = let rest = trim_start_matches p s in if p c then rest else c ∷ s

unfoldable pub trim_matches : (ℕ → Bool) → Text → Text
unfolding trim_start_matches
trim_matches p s = reverse (trim_start_matches p (reverse (trim_start_matches p s)))

-- `s.trim()`.
unfoldable pub trim : Text → Text
unfolding trim_matches is_whitespace
trim = trim_matches is_whitespace

-- Behind a line's text, a carriage return that stands before the newline.
unfoldable pub strip_cr : Text → Text
strip_cr [] = []
strip_cr (c ∷ []) = if c == 13 then [] else c ∷ []
strip_cr (c ∷ d ∷ s) = c ∷ strip_cr (d ∷ s)

-- `s.lines()`, with the line so far: a line ends at a newline, and a last line may lack it.
unfoldable pub lines_from : Text → Text → List Text
unfolding strip_cr
lines_from cur [] = if is_empty cur then [] else cur ∷ []
lines_from cur (c ∷ s) = elim (c == 10) [
  | true ↦ strip_cr cur ∷ lines_from [] s
  | false ↦ lines_from (cur ++ c ∷ []) s
]

abbrev pub lines : Text → List Text
lines = lines_from []

-- `s.split(sep)`, with the part so far.
unfoldable pub split_from : ℕ → Text → Text → List Text
split_from sep cur [] = cur ∷ []
split_from sep cur (c ∷ s) = elim (c == sep) [
  | true ↦ cur ∷ split_from sep [] s
  | false ↦ split_from sep (cur ++ c ∷ []) s
]

abbrev pub split : ℕ → Text → List Text
split sep = split_from sep []

-- `s.split_whitespace()`, with the word so far.
unfoldable pub words_from : Text → Text → List Text
unfolding is_whitespace
words_from cur [] = if is_empty cur then [] else cur ∷ []
words_from cur (c ∷ s) = elim (is_whitespace c) [
  | true ↦ let rest = words_from [] s in if is_empty cur then rest else cur ∷ rest
  | false ↦ words_from (cur ++ c ∷ []) s
]

abbrev pub split_whitespace : Text → List Text
split_whitespace = words_from []

-- `s.split_once(sep)`, with the part before.
unfoldable pub split_once_from : ℕ → Text → Text → Option (Text × Text)
split_once_from sep cur [] = none
split_once_from sep cur (c ∷ s) = elim (c == sep) [
  | true ↦ some (cur, s)
  | false ↦ split_once_from sep (cur ++ c ∷ []) s
]

abbrev pub split_once : ℕ → Text → Option (Text × Text)
split_once sep = split_once_from sep []

-- `parts.join(sep)`, the separator first.
unfoldable pub join : Text → List Text → Text
join sep [] = []
join sep (p ∷ []) = p
join sep (p ∷ q ∷ ps) = p ++ (sep ++ join sep (q ∷ ps))

-- `char::len_utf8`.
unfoldable pub len_utf8 : ℕ → ℕ
len_utf8 c = if ltb c 0x80 then 1 else if ltb c 0x800 then 2 else if ltb c 0x10000 then 3 else 4

-- `s.len()`, in bytes.
unfoldable pub byte_len : Text → ℕ
unfolding len_utf8
byte_len [] = 0
byte_len (c ∷ s) = len_utf8 c + byte_len s
