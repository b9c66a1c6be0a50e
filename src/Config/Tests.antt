-- ===== src/Config/Tests.antt =====
-- Readings of the settings at concrete home directories.
use vigil_collector.Prelude.{
  ℕ, zero, suc, ◌≡◌, refl, ap, subst, ◌⊎◌, inl, inr, false, Option, none, some, ◌++◌, if◌then◌else◌,
  take,
}
use vigil_collector.Text.{Text, codes, text_eq}
use vigil_collector.Float.Millis.{Millis, millis_float}
use vigil_collector.Config.{
  Settings, Faults, whole, cut, Home, missing, dir, default_settings, Fields, with_defaults,
  settings_file, read_settings,
}
use vigil_collector.Config.Reading.{reading, RoundTrips, CutsFail, read_settings_stable}

-- A printer that writes one word, and the reader that knows it and one word more.
abbrev print_settings : Settings Millis → Option Text
print_settings s = some (codes "defaults")

abbrev parse_settings : Text → Option (Settings Millis)
parse_settings s =
    if text_eq s (codes "defaults")
    then some default_settings
    else if text_eq s (codes "busy")
    then some (record default_settings { port_number = 80 })
    else none

abbrev no_faults : Faults
no_faults = record { rename_fails = false; create_fails = false; write = whole; read_fails = false }

print-parse : RoundTrips print_settings parse_settings
unfolding text_eq
print-parse s e = subst (λ t. parse_settings t ≡ some default_settings) word refl
  where
    word : codes "defaults" ≡ s
    word = cc

take-nil : (n : ℕ) → take n (codes "") ≡ codes ""
take-nil zero = refl
take-nil (suc n) = refl

print-cuts : CutsFail print_settings parse_settings
unfolding text_eq
print-cuts s n e = subst (λ t. (take n t ≡ t) ⊎ (parse_settings (take n t) ≡ none)) word (parts n)
  where
    word : codes "defaults" ≡ s
    word = cc

    parts :
        (n : ℕ)
        → (take n (codes "defaults") ≡ codes "defaults")
          ⊎ (parse_settings (take n (codes "defaults")) ≡ none)
    parts zero = inr refl
    parts (suc zero) = inr refl
    parts (suc (suc zero)) = inr refl
    parts (suc (suc (suc zero))) = inr refl
    parts (suc (suc (suc (suc zero)))) = inr refl
    parts (suc (suc (suc (suc (suc zero))))) = inr refl
    parts (suc (suc (suc (suc (suc (suc zero)))))) = inr refl
    parts (suc (suc (suc (suc (suc (suc (suc zero))))))) = inr refl
    parts (suc (suc (suc (suc (suc (suc (suc (suc n)))))))) =
        inl (ap (λ t. codes "defaults" ++ t) (take-nil n))

abbrev legacy_home : Home
legacy_home = record { new = missing; old = dir (some (codes "busy")) }

read_settings_stable_example :
    let read = reading print_settings parse_settings in
    (read no_faults (read no_faults legacy_home).1).0 ≡ (read no_faults legacy_home).0
read_settings_stable_example =
    read_settings_stable print_settings parse_settings print-parse print-cuts no_faults legacy_home

-- A first run whose write fails leaves a part of the defaults, which the second call does not read.
part_is_left :
    (reading print_settings parse_settings
      (record no_faults { write = cut 3 })
      (record { new = missing; old = missing })).1.new
    ≡ dir (some (codes "def"))
unfolding read_settings
part_is_left = refl

-- A file without any field gives the defaults of `Settings::default`.
abbrev empty_file : Fields Millis
empty_file = record {
  logging_enabled = none;
  log_level = none;
  address = none;
  port_number = none;
  max_ws_connections = none;
  ws_push_interval = none;
  probes = none;
  probe_timeout = none;
}

defaults_agree : with_defaults ⦃f = millis_float⦄ empty_file ≡ default_settings ⦃f = millis_float⦄
unfolding with_defaults default_settings
defaults_agree = refl

home_file : settings_file (some (codes "/root")) ≡ codes "/root/.vigil-collector/settings.json"
unfolding settings_file
home_file = refl

file_without_home : settings_file none ≡ codes "./.vigil-collector/settings.json"
unfolding settings_file
file_without_home = refl
