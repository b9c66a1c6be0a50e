-- ===== src/Metrics/Platform/Uptime.antt =====
-- metrics/platform.rs: what `format_uptime` shows of a time.
use vigil_collector.Prelude.{
  ℕ, ◌+◌, ◌*◌, ◌/◌, ◌%◌, ◌<◌, ◌≡◌, refl, sym, ap, ◌∙◌, inl, inr, true, List, [], ◌∷◌, ◌++◌, arith,
  ltb, ◌==◌, if◌then◌else◌, Bool-cases,
}
use vigil_collector.Text.{Text, codes, join}
use mathlib.Core.List.{append_assoc, append-nil}
use vigil_collector.Metrics.Platform.{counted_word, push_part, join_parts, format_uptime}

-- The parts of a time that are not 0, with their words.
unfoldable pub shown_parts : List (ℕ × Text) → List Text
unfolding counted_word
shown_parts [] = []
shown_parts ((n, word) ∷ more) =
    let later = shown_parts more in if n == 0 then later else counted_word n word ∷ later

pushed :
    (n : ℕ) (w : Text) (parts later : List Text)
    → (if ltb 0 n then parts ++ w ∷ [] else parts) ++ later
      ≡ parts ++ (if n == 0 then later else w ∷ later)
pushed n w parts later = ground (arith, append_assoc parts (w ∷ []) later)

unfoldable push_all : List (ℕ × Text) → List Text → List Text
unfolding push_part
push_all [] parts = parts
push_all ((n, word) ∷ more) parts = push_all more (push_part n word parts)

push_all-append :
    (xs : List (ℕ × Text)) (parts : List Text) → push_all xs parts ≡ parts ++ shown_parts xs
unfolding push_all shown_parts push_part
push_all-append [] parts = sym (append-nil parts)
push_all-append ((n, word) ∷ more) parts =
    push_all-append more (push_part n word parts)
    ∙ pushed n (counted_word n word) parts (shown_parts more)

-- The time of so many days, hours, minutes and seconds.
abbrev pub seconds_of : ℕ → ℕ → ℕ → ℕ → ℕ
seconds_of d h m s = d * 86400 + h * 3600 + m * 60 + s

abbrev pub parts_of : ℕ → ℕ → ℕ → ℕ → List (ℕ × Text)
parts_of d h m s = (d, codes " day") ∷ (h, codes " hr") ∷ (m, codes " min") ∷ (s, codes " sec") ∷ []

eq_zero : (n : ℕ) → n == 0 ≡ true → n ≡ 0
eq_zero n h = ground arith

is_none : (d h m s : ℕ) → seconds_of d h m s ≡ 0 → (d ≡ 0) × (h ≡ 0) × (m ≡ 0) × (s ≡ 0)
is_none d h m s z = omega arith

join_parts_lem :
    (d h m s : ℕ) → join_parts d h m s ≡ join (codes ", ") (shown_parts (parts_of d h m s))
unfolding join_parts push_all
join_parts_lem d h m s = ap (join (codes ", ")) (push_all-append (parts_of d h m s) [])

shown_none : join (codes ", ") (shown_parts (parts_of 0 0 0 0)) ≡ []
unfolding shown_parts join
shown_none = refl

-- An uptime of d days, h hours, m minutes and s seconds, each below its limit, is shown as those of
-- the four numbers that are not 0, in this order, each with its word, in the plural unless it is 1.
pub format_uptime_parts :
    (d h m s : ℕ)
    → h < 24
    → m < 60
    → s < 60
    → format_uptime (seconds_of d h m s) ≡ join (codes ", ") (shown_parts (parts_of d h m s))
unfolding format_uptime
format_uptime_parts d h m s lh lm ls = elim (Bool-cases (seconds_of d h m s == 0)) [
  | inl z ↦ nothing (is_none d h m s (eq_zero _ z))
  | inr p ↦ rw (p, days, hours, minutes, seconds) (join_parts_lem d h m s)
]
  where
    t : ℕ
    t = seconds_of d h m s

    days : t / 86400 ≡ d
    days = omega arith

    hours : t % 86400 / 3600 ≡ h
    hours = omega arith

    minutes : t % 86400 % 3600 / 60 ≡ m
    minutes = omega arith

    seconds : t % 86400 % 3600 % 60 ≡ s
    seconds = omega arith

    nothing :
        (d ≡ 0) × (h ≡ 0) × (m ≡ 0) × (s ≡ 0)
        → format_uptime (seconds_of d h m s) ≡ join (codes ", ") (shown_parts (parts_of d h m s))
    nothing (zd, zh, zm, zs) = rw (zd, zh, zm, zs) (sym shown_none)
