-- ===== src/Text/Trim.antt =====
-- What `trim` takes away.
use vigil_collector.Prelude.{
  ◌≡◌, refl, sym, ap, ◌∙◌, subst, true, false, [], ◌∷◌, ◌++◌, All, All-append,
}
use vigil_collector.Text.Defs.{Text, is_whitespace, trim_start_matches, trim_matches, trim}
use mathlib.Core.List.{append-nil, reverse, reverse-append, reverse-reverse, reverse-cons}

-- Blanks only.
abbrev pub IsBlank : Text → Type 0
IsBlank s = All (λ c. is_whitespace c ≡ true) s

-- A first character, which is no blank.
abbrev pub StartsSolid : Text → Type 0
StartsSolid [] = ⊥
StartsSolid (c ∷ s) = is_whitespace c ≡ false

trim_start-blank :
    (b s : Text)
    → IsBlank b
    → trim_start_matches is_whitespace (b ++ s) ≡ trim_start_matches is_whitespace s
unfolding trim_start_matches
trim_start-blank [] s h = refl
trim_start-blank (c ∷ b) s (hc, h) = rw (hc, trim_start-blank b s h)

trim_start-solid : (t s : Text) → StartsSolid t → trim_start_matches is_whitespace (t ++ s) ≡ t ++ s
unfolding trim_start_matches
trim_start-solid [] s h = absurd h
trim_start-solid (c ∷ t) s h = rw h

IsBlank-reverse : (b : Text) → IsBlank b → IsBlank (reverse b)
IsBlank-reverse [] h = tt
IsBlank-reverse (c ∷ b) (hc, h) =
    subst IsBlank (sym (reverse-cons c b))
      (All-append (λ c. is_whitespace c ≡ true) (reverse b) (c ∷ []) (IsBlank-reverse b h) (hc, tt))

-- A text with solid ends comes out of the blanks around it.
pub trim-blanks :
    (b t a : Text)
    → IsBlank b
    → IsBlank a
    → StartsSolid t
    → StartsSolid (reverse t)
    → trim (b ++ (t ++ a)) ≡ t
unfolding trim trim_matches
trim-blanks b t a hb ha first last =
    ap (λ s. reverse (trim_start_matches is_whitespace (reverse s)))
      (trim_start-blank b (t ++ a) hb ∙ trim_start-solid t a first)
    ∙ ap (λ s. reverse (trim_start_matches is_whitespace s)) (reverse-append t a)
    ∙ ap reverse (
        trim_start-blank (reverse a) (reverse t) (IsBlank-reverse a ha)
        ∙ sym (ap (trim_start_matches is_whitespace) (append-nil (reverse t)))
        ∙ trim_start-solid (reverse t) [] last
        ∙ append-nil (reverse t))
    ∙ reverse-reverse t

trim_start-all : (b : Text) → IsBlank b → trim_start_matches is_whitespace b ≡ []
unfolding trim_start_matches
trim_start-all [] h = refl
trim_start-all (c ∷ b) (hc, h) = rw (hc, trim_start-all b h)

pub trim-blank : (b : Text) → IsBlank b → trim b ≡ []
unfolding trim trim_matches trim_start_matches
trim-blank b h = rw (trim_start-all b h)
