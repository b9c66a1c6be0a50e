-- ===== src/Text/Laws.antt =====
-- Laws of the text functions.
use vigil_collector.Prelude.{ℕ, ◌+◌, ◌≤◌, ◌≡◌, ◌↔◌, refl, true, some, [], ◌∷◌, ◌++◌, arith}
use vigil_collector.Text.Defs.{Text, text_eq, strip_prefix, len_utf8, byte_len}

pub text_eq_iff : (s t : Text) → (text_eq s t ≡ true) ↔ (s ≡ t)
unfolding text_eq
text_eq_iff [] [] = (λ _. refl, λ _. refl)
text_eq_iff [] (d ∷ t) = (λ e. cc, λ e. cc)
text_eq_iff (c ∷ s) [] = (λ e. cc, λ e. cc)
text_eq_iff (c ∷ s) (d ∷ t) = ground (arith, text_eq_iff s t)

pub text_eq_refl : (s : Text) → text_eq s s ≡ true
text_eq_refl s = (text_eq_iff s s).1 refl

pub text_eq_comm : (s t : Text) → text_eq s t ≡ text_eq t s
text_eq_comm s t = ground (arith, text_eq_iff s t, text_eq_iff t s)

pub strip_prefix-append : (p s r : Text) → strip_prefix p s ≡ some r → s ≡ p ++ r
unfolding strip_prefix
strip_prefix-append [] s r h = ground arith
strip_prefix-append (p ∷ ps) [] r h = cc
strip_prefix-append (p ∷ ps) (c ∷ s) r h = ground (arith, strip_prefix-append ps s r)

pub len_utf8_bounds : (c : ℕ) → (1 ≤ len_utf8 c) × (len_utf8 c ≤ 4)
unfolding len_utf8
len_utf8_bounds c = ground arith

pub byte_len-append : (s t : Text) → byte_len (s ++ t) ≡ byte_len s + byte_len t
unfolding byte_len
byte_len-append [] t = omega arith
byte_len-append (c ∷ s) t = omega (arith, byte_len-append s t)
