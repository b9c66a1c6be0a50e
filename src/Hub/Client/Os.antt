-- ===== src/Hub/Client/Os.antt =====
-- hub/client.rs: `detect_os`, beside `distro` of metrics/platform.rs, which reads the same file.
use vigil_collector.Prelude.{
  ℕ, ◌+◌, ◌≤◌, ◌<◌, ◌≡◌, refl, sym, ap, ◌∙◌, ◌≢◌, ◌⊎◌, inl, inr, Option, none, some, List, [], ◌∷◌,
  arith, Option-cases,
}
use vigil_collector.Text.{Text, codes, strip_prefix, lines_from, lines}
use vigil_collector.Target.{Target, linux, macos, windows, other}
use vigil_collector.Metrics.Disk.Partitions.{or_else}
use vigil_collector.Metrics.Platform.{
  value_of, pretty_key, name_key, with_values, scan_release, or_name, find_distro,
}

-- One of the two loops: the value on the first line with the key.
unfoldable pub first_value : Text → List Text → Option Text
unfolding value_of or_else
first_value key [] = none
first_value key (line ∷ more) = or_else (value_of key line) (first_value key more)

-- Of the system and of the text of /etc/os-release, which only Linux has.
unfoldable pub detect_os : Target → Option Text → Text
unfolding first_value or_else lines_from
detect_os macos os_release = codes "macOS"
detect_os windows os_release = codes "Windows"
detect_os (other unix os) os_release = os
detect_os linux none = codes "linux"
detect_os linux (some raw) =
    let ls = lines raw in
    elim (or_else (first_value pretty_key ls) (first_value name_key ls)) [
      | none ↦ codes "linux"
      | some s ↦ s
    ]

abbrev present : Option Text → ℕ
present none = 0
present (some v) = 1

-- How many lines have the key.
unfoldable pub lines_with : Text → List Text → ℕ
unfolding value_of
lines_with key [] = 0
lines_with key (line ∷ more) = present (value_of key line) + lines_with key more

first_value-none : (key : Text) (ls : List Text) → lines_with key ls ≡ 0 → first_value key ls ≡ none
unfolding lines_with first_value or_else
first_value-none key [] h = refl
first_value-none key (line ∷ more) h = ground (arith, first_value-none key more)

first_value-some : (key : Text) (ls : List Text) → 0 < lines_with key ls → first_value key ls ≢ none
unfolding lines_with first_value or_else
first_value-some key [] h = absurd (omega arith)
first_value-some key (line ∷ more) h = ground (arith, first_value-some key more)

-- A line does not have both keys.
strip_apart :
    (line v : Text) → strip_prefix pretty_key line ≡ some v → strip_prefix name_key line ≡ none
unfolding strip_prefix
strip_apart [] v h = refl
strip_apart (c ∷ s) v h = ground arith

value_apart : (line : Text) → (value_of pretty_key line ≡ none) ⊎ (value_of name_key line ≡ none)
unfolding value_of
value_apart line = elim (Option-cases (strip_prefix pretty_key line)) [
  | inl e ↦ inl (rw e)
  | inr (v, e) ↦ inr (rw (strip_apart line v e))
]

abbrev found_in : Option Text → Option Text → Option Text × Option Text → Option Text × Option Text
found_in p n found = (or_else p found.0, or_else n found.1)

-- One round, with what the line has and what the later lines have.
found_in-with_values :
    (p n later_p later_n : Option Text) (found : Option Text × Option Text)
    → (p ≡ none) ⊎ (n ≡ none)
    → (p ≡ none) ⊎ (later_p ≡ none)
    → (n ≡ none) ⊎ (later_n ≡ none)
    → found_in later_p later_n (with_values p n found)
      ≡ found_in (or_else p later_p) (or_else n later_n) found
unfolding or_else
found_in-with_values (some s) (some t) lp ln found a b c = absurd (ground arith)
found_in-with_values (some s) none lp ln found a (inl b) c = absurd (cc)
found_in-with_values (some s) none lp ln found a (inr b) c = rw b
found_in-with_values none (some t) lp ln found a b (inl c) = absurd (cc)
found_in-with_values none (some t) lp ln found a b (inr c) = rw c
found_in-with_values none none lp ln found a b c = refl

once :
    (key line : Text) (more : List Text)
    → lines_with key (line ∷ more) ≤ 1
    → (value_of key line ≡ none) ⊎ (first_value key more ≡ none)
unfolding lines_with
once key line more h = elim (Option-cases (value_of key line)) [
  | inl e ↦ inl e
  | inr (v, e) ↦ inr (first_value-none key more (ground arith))
]

later_once :
    (key line : Text) (more : List Text)
    → lines_with key (line ∷ more) ≤ 1
    → lines_with key more ≤ 1
unfolding lines_with
later_once key line more h = omega arith

scan_release-first :
    (ls : List Text) (found : Option Text × Option Text)
    → lines_with pretty_key ls ≤ 1
    → lines_with name_key ls ≤ 1
    → scan_release ls found ≡ found_in (first_value pretty_key ls) (first_value name_key ls) found
unfolding scan_release first_value or_else
scan_release-first [] found one_p one_n = refl
scan_release-first (line ∷ more) found one_p one_n =
    scan_release-first more (with_values (value_of pretty_key line) (value_of name_key line) found)
      (later_once pretty_key line more one_p) (later_once name_key line more one_n)
    ∙ found_in-with_values (value_of pretty_key line) (value_of name_key line)
        (first_value pretty_key more) (first_value name_key more) found (value_apart line)
        (once pretty_key line more one_p) (once name_key line more one_n)

or_else-none : (p : Option Text) → or_else p none ≡ p
unfolding or_else
or_else-none none = refl
or_else-none (some s) = refl

-- On Linux, where /etc/os-release has each of the two keys once at most and one of them at least, the hub is told
-- the name that the dashboard shows, whatever sysinfo and the order of the keys say.
pub detect_os-eq-find_distro :
    (raw : Text) (system_name : Option Text)
    → lines_with pretty_key (lines raw) ≤ 1
    → lines_with name_key (lines raw) ≤ 1
    → 0 < lines_with pretty_key (lines raw) + lines_with name_key (lines raw)
    → detect_os linux (some raw) ≡ find_distro (some raw) system_name
unfolding detect_os find_distro
detect_os-eq-find_distro raw system_name one_p one_n named = elim (Option-cases both) [
  | inl e ↦ absurd (missing (lines raw) named e)
  | inr (s, e) ↦ told s e ∙ sym (shown s e)
]
  where
    both : Option Text
    both = or_else (first_value pretty_key (lines raw)) (first_value name_key (lines raw))

    told : (s : Text) → both ≡ some s → detect_os linux (some raw) ≡ s
    told s e = ap (λ o. elim o as (λ x. Text) [ none ↦ codes "linux" | some t ↦ t ]) e

    found :
        scan_release (lines raw) (none, none)
        ≡ (first_value pretty_key (lines raw), first_value name_key (lines raw))
    found =
        scan_release-first (lines raw) (none, none) one_p one_n
        ∙ rw (
          or_else-none (first_value pretty_key (lines raw)),
          or_else-none (first_value name_key (lines raw)),
        )

    shown : (s : Text) → both ≡ some s → find_distro (some raw) system_name ≡ s
    shown s e =
        ap
          (λ (o : Option Text × Option Text). elim (or_else o.0 o.1) as (λ x. Text) [
            | none ↦ or_name system_name
            | some t ↦ t
          ])
          found
        ∙ ap (λ o. elim o as (λ x. Text) [ none ↦ or_name system_name | some t ↦ t ]) e

    missing :
        (ls : List Text)
        → 0 < lines_with pretty_key ls + lines_with name_key ls
        → or_else (first_value pretty_key ls) (first_value name_key ls) ≡ none
        → ⊥
    missing ls h e = ground (arith, first_value-some pretty_key ls, first_value-some name_key ls)
