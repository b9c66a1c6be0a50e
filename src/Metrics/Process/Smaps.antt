-- ===== src/Metrics/Process/Smaps.antt =====
-- metrics/process.rs: `read_pss_kb` of a text that is laid out as the kernel writes smaps_rollup.
use vigil_collector.Prelude.{
  ℕ, ◌≤◌, ◌≡◌, refl, sym, ap, ◌∙◌, ◌≢◌, true, false, none, some, List, [], ◌∷◌, ◌++◌, All,
  All-append, arith, ◌==◌, subst,
}
use mathlib.Core.List.{append-nil, append_assoc, reverse, reverse-append}
use vigil_collector.Text.{
  Text, codes, is_whitespace, strip_prefix, strip_cr, lines_from, lines, words_from,
  split_whitespace, trim,
}
use vigil_collector.Text.Number.{max_u64, decimal, parse_u64}
use vigil_collector.Text.Number.Decimal.{
  AreDigits, is_digit, decimal-digits, decimal-not_empty, parse_u64-decimal,
}
use vigil_collector.Text.Trim.{IsBlank, StartsSolid, trim-blanks}
use vigil_collector.Metrics.Process.Pss.{ProcFs, pss_value, pss_of_lines, read_pss_kb}

abbrev pub HasNoNewline : Text → Type 0
HasNoNewline s = All (λ c. (c == 10) ≡ false) s

-- Lines, each with a newline behind it.
abbrev pub unlines : List Text → Text
unlines [] = []
unlines (l ∷ ls) = l ++ (10 ∷ unlines ls)

-- The line of the kernel, behind its key.
abbrev pub amount : Text → ℕ → Text
amount pad kb = pad ++ (decimal kb ++ codes " kB")

lines_from-line :
    (cur l rest : Text)
    → HasNoNewline l
    → lines_from cur (l ++ (10 ∷ rest)) ≡ strip_cr (cur ++ l) ∷ lines rest
unfolding lines_from
lines_from-line cur [] rest h = rw append-nil
lines_from-line cur (c ∷ l) rest (hc, h) =
    rw (hc, lines_from) (lines_from-line (cur ++ c ∷ []) l rest h ∙ rw append_assoc)

strip_cr-last : (s : Text) (c : ℕ) → (c == 13) ≡ false → strip_cr (s ++ c ∷ []) ≡ s ++ c ∷ []
unfolding strip_cr
strip_cr-last [] c h = rw h
strip_cr-last (x ∷ []) c h = rw h
strip_cr-last (x ∷ y ∷ s) c h = ap (λ t. x ∷ t) (strip_cr-last (y ∷ s) c h)

digit_solid : (c : ℕ) → is_digit c ≡ true → is_whitespace c ≡ false
unfolding is_whitespace
digit_solid c h = ground arith

words_from-digits :
    (x : ℕ) (cur d s : Text)
    → AreDigits d
    → words_from (x ∷ cur) (d ++ (32 ∷ s)) ≡ (x ∷ (cur ++ d)) ∷ split_whitespace s
unfolding words_from is_whitespace
words_from-digits x cur [] s h = rw append-nil
words_from-digits x cur (c ∷ d) s (hc, h) =
    rw (digit_solid c hc, words_from) (words_from-digits x (cur ++ c ∷ []) d s h ∙ rw append_assoc)

-- The first word is the digits.
first_word :
    (d s : Text) → AreDigits d → d ≢ [] → split_whitespace (d ++ (32 ∷ s)) ≡ d ∷ split_whitespace s
unfolding words_from
first_word [] s h n = absurd (n refl)
first_word (c ∷ d) s (hc, h) n = rw (digit_solid c hc, words_from) (words_from-digits c [] d s h)

digits-StartsSolid : (d s : Text) → AreDigits d → d ≢ [] → StartsSolid (d ++ s)
digits-StartsSolid [] s h n = absurd (n refl)
digits-StartsSolid (c ∷ d) s (hc, h) n = digit_solid c hc

ends_solid : (d : Text) → StartsSolid (reverse (d ++ codes " kB"))
unfolding is_whitespace
ends_solid d = subst StartsSolid (sym (reverse-append d (codes " kB"))) refl

trim-amount : (pad : Text) (kb : ℕ) → IsBlank pad → trim (amount pad kb) ≡ decimal kb ++ codes " kB"
trim-amount pad kb h =
    ap (λ s. trim (pad ++ s)) (sym (append-nil (decimal kb ++ codes " kB")))
    ∙ trim-blanks pad (decimal kb ++ codes " kB") [] h tt
        (digits-StartsSolid (decimal kb) (codes " kB") (decimal-digits kb) (decimal-not_empty kb))
        (ends_solid (decimal kb))

first_read :
    (rest d : Text) (w : List Text)
    → split_whitespace (trim rest) ≡ d ∷ w
    → pss_value rest ≡ parse_u64 d
unfolding pss_value
first_read rest d w e = rw (e, pss_value) refl

pss_value-amount :
    (pad : Text) (kb : ℕ) → IsBlank pad → kb ≤ max_u64 → pss_value (amount pad kb) ≡ some kb
pss_value-amount pad kb h le =
    first_read (amount pad kb) (decimal kb) _ (
      ap split_whitespace (trim-amount pad kb h)
      ∙ first_word (decimal kb) (codes "kB") (decimal-digits kb) (decimal-not_empty kb))
    ∙ parse_u64-decimal kb le

-- No line of these has the key.
abbrev pub IsOther : Text → Type 0
IsOther l = HasNoNewline l × (strip_prefix (codes "Pss:") (strip_cr l) ≡ none)

skip_line :
    (l : Text) (ls : List Text)
    → strip_prefix (codes "Pss:") l ≡ none
    → pss_of_lines (l ∷ ls) ≡ pss_of_lines ls
unfolding pss_of_lines
skip_line l ls h = rw h

pss_of_lines-unlines :
    (before : List Text) (rest : Text)
    → All IsOther before
    → pss_of_lines (lines (unlines before ++ rest)) ≡ pss_of_lines (lines rest)
pss_of_lines-unlines [] rest h = refl
pss_of_lines-unlines (l ∷ ls) rest ((hn, hp), h) =
    ap (λ s. pss_of_lines (lines s)) (append_assoc l (10 ∷ unlines ls) rest)
    ∙ ap pss_of_lines (lines_from-line [] l (unlines ls ++ rest) hn)
    ∙ skip_line (strip_cr l) _ hp
    ∙ pss_of_lines-unlines ls rest h

digit_no_newline : (c : ℕ) → is_digit c ≡ true → (c == 10) ≡ false
digit_no_newline c h = ground arith

digits-HasNoNewline : (d : Text) → AreDigits d → HasNoNewline d
digits-HasNoNewline [] h = tt
digits-HasNoNewline (c ∷ d) (hc, h) = (digit_no_newline c hc, digits-HasNoNewline d h)

strip_cr-unit : (s : Text) → strip_cr (s ++ codes " kB") ≡ s ++ codes " kB"
strip_cr-unit s =
    subst (λ t. strip_cr t ≡ t) (append_assoc s (codes " k") (codes "B"))
      (strip_cr-last (s ++ codes " k") b'B' refl)

abbrev pss_line : Text → ℕ → Text
pss_line pad kb = codes "Pss:" ++ amount pad kb

strip_cr-pss_line : (pad : Text) (kb : ℕ) → strip_cr (pss_line pad kb) ≡ pss_line pad kb
strip_cr-pss_line pad kb =
    subst (λ t. strip_cr t ≡ t)
      (append_assoc (codes "Pss:" ++ pad) (decimal kb) (codes " kB")
        ∙ append_assoc (codes "Pss:") pad (decimal kb ++ codes " kB"))
      (strip_cr-unit ((codes "Pss:" ++ pad) ++ decimal kb))

amount-HasNoNewline : (pad : Text) (kb : ℕ) → HasNoNewline pad → HasNoNewline (amount pad kb)
amount-HasNoNewline pad kb h = All-append _ pad _ h (
    All-append _ (decimal kb) (codes " kB") (digits-HasNoNewline (decimal kb) (decimal-digits kb))
      (refl, (refl, (refl, tt))))

take_line :
    (rest : Text) (ls : List Text) → pss_of_lines ((codes "Pss:" ++ rest) ∷ ls) ≡ pss_value rest
unfolding pss_of_lines strip_prefix
take_line rest ls = refl

pss_line-read :
    (pad after : Text) (kb : ℕ)
    → IsBlank pad
    → HasNoNewline pad
    → kb ≤ max_u64
    → pss_of_lines (lines (codes "Pss:" ++ (amount pad kb ++ (10 ∷ after)))) ≡ some kb
pss_line-read pad after kb hb hn le =
    ap pss_of_lines (
      lines_from-line [] (pss_line pad kb) after
        (refl, (refl, (refl, (refl, amount-HasNoNewline pad kb hn))))
      ∙ ap (λ l. l ∷ lines after) (strip_cr-pss_line pad kb))
    ∙ take_line (amount pad kb) (lines after)
    ∙ pss_value-amount pad kb hb le

-- Where smaps_rollup has, behind lines with other keys, the line `Pss:` with blanks, the decimal digits of
-- a number that fits in 64 bits, and the unit, that number is what is read, whatever comes behind it.
pub read_pss_kb-printed :
    (fs : ProcFs) (pid : ℕ) (before : List Text) (pad after : Text) (kb : ℕ)
    → fs.smaps_rollup pid
      ≡ some (unlines before ++ (codes "Pss:" ++ (amount pad kb ++ (10 ∷ after))))
    → All IsOther before
    → IsBlank pad
    → HasNoNewline pad
    → kb ≤ max_u64
    → read_pss_kb fs pid ≡ some kb
unfolding read_pss_kb
read_pss_kb-printed fs pid before pad after kb file others hb hn le =
    rw (file, read_pss_kb)
      (pss_of_lines-unlines before _ others ∙ pss_line-read pad after kb hb hn le)
