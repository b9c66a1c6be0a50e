-- ===== src/Config/Reading.antt =====
-- config.rs: what a second reading of the settings gives, and what is read after a migration.
use vigil_collector.Prelude.{
  ℕ, ◌≡◌, refl, ap, ◌∙◌, ◌⊎◌, inl, inr, Bool, true, false, Option, none, some, take,
}
use vigil_collector.Float.{Float}
use vigil_collector.Text.{Text}
use vigil_collector.Config.{
  Settings, Entry, missing, other, dir, Home, Write, whole, not_created, cut, Faults,
  default_settings, read_settings, write_defaults,
}

abbrev flags : Bool → Bool → Write → Bool → Faults
flags rename_fails create_fails write read_fails = record {
  rename_fails = rename_fails;
  create_fails = create_fails;
  write = write;
  read_fails = read_fails;
}

module _ {F : Type 0} ⦃f : Float F⦄ (to_string_pretty : Settings F → Option Text)
    (from_str : Text → Option (Settings F)) where
  -- The printer's text of the default settings is read back.
  abbrev pub RoundTrips : Type 0
  RoundTrips =
      (s : Text) → to_string_pretty default_settings ≡ some s → from_str s ≡ some default_settings

  abbrev pub reading : Faults → Home → Settings F × Home
  reading = read_settings to_string_pretty from_str

  -- A part of that text that is not the whole of it is not read: it is no JSON.
  abbrev pub CutsFail : Type 0
  CutsFail =
      (s : Text) (n : ℕ)
      → to_string_pretty default_settings ≡ some s
      → (take n s ≡ s) ⊎ (from_str (take n s) ≡ none)

  -- A file with the printed defaults, or a part of them, gives the defaults.
  default_text :
      (r c d : Bool) (w : Write) (old : Entry) (t : Text)
      → (from_str t ≡ some default_settings) ⊎ (from_str t ≡ none)
      → (reading (flags r c w d) (record { new = dir (some t); old = old })).0 ≡ default_settings
  unfolding read_settings
  default_text r c true w old t h = refl
  default_text r c false w old t (inl e) = rw e
  default_text r c false w old t (inr e) = rw e

  default_part :
      (rt : RoundTrips) (cuts : CutsFail) (n : ℕ) (s : Text)
      → to_string_pretty default_settings ≡ some s
      → (from_str (take n s) ≡ some default_settings) ⊎ (from_str (take n s) ≡ none)
  default_part rt cuts n s e = elim (cuts s n e) [
    | inl all ↦ inl (ap from_str all ∙ rt s e)
    | inr bad ↦ inr bad
  ]

  -- What is left by the write, of the text that is printed.
  left : Write → Option Text → Option Text
  left w none = none
  left w (some s) = elim w [ whole ↦ some s | not_created ↦ none | cut n ↦ some (take n s) ]

  printed :
      (rt : RoundTrips) (cuts : CutsFail) (r c d : Bool) (w : Write) (old : Entry) (o : Option Text)
      → to_string_pretty default_settings ≡ o
      → (reading (flags r c w d) (record { new = dir (left w o); old = old })).0 ≡ default_settings
  unfolding read_settings left
  printed rt cuts r c d w old none e = refl
  printed rt cuts r c d whole old (some s) e = default_text r c d whole old s (inl (rt s e))
  printed rt cuts r c d not_created old (some s) e = refl
  printed rt cuts r c d (cut n) old (some s) e =
      default_text r c d (cut n) old (take n s) (default_part rt cuts n s e)

  -- The file of a first run is read as the defaults, and so is no file.
  written :
      (rt : RoundTrips) (cuts : CutsFail) (r c : Bool) (w : Write) (d : Bool) (old : Entry)
      → let faults = flags r c w d in
        (reading faults
          (record { new = dir (write_defaults to_string_pretty from_str faults); old = old })).0
        ≡ default_settings
  unfolding write_defaults left
  written rt cuts r c w d old = go (to_string_pretty default_settings) refl
    where
      go :
          (o : Option Text)
          → to_string_pretty default_settings ≡ o
          → (reading (flags r c w d) (record {
            new = dir (elim o as (λ x. Option Text) [
              | none ↦ none
              | some s ↦ elim w [ whole ↦ some s | not_created ↦ none | cut n ↦ some (take n s) ]
            ]);
            old = old;
          })).0
            ≡ default_settings
      go none e = printed rt cuts r c d w old none e
      go (some s) e = printed rt cuts r c d w old (some s) e

  -- A second call, with the flags of the faults one by one.
  stable :
      (rt : RoundTrips) (cuts : CutsFail) (rename_fails create_fails : Bool) (write : Write)
      (read_fails : Bool) (new old : Entry)
      → let faults = flags rename_fails create_fails write read_fails in
        let h : Home = record { new = new; old = old } in
        (reading faults (reading faults h).1).0 ≡ (reading faults h).0
  unfolding read_settings
  stable rt cuts r c w d other old = refl
  stable rt cuts r c w d (dir (some s)) old = refl
  stable rt cuts r c w d (dir none) old = written rt cuts r c w d old
  stable rt cuts r true w d missing missing = refl
  stable rt cuts r false w d missing missing = written rt cuts r false w d missing
  stable rt cuts r true w d missing other = refl
  stable rt cuts r false w d missing other = written rt cuts r false w d other
  stable rt cuts true true w d missing (dir file) = refl
  stable rt cuts true false w d missing (dir file) = written rt cuts true false w d (dir file)
  stable rt cuts false c w d missing (dir none) = written rt cuts false c w d missing
  stable rt cuts false c w d missing (dir (some s)) = refl

  -- If the printed defaults are read back as they were, and a part of them is not read, a second call of `read_settings`, with the same
  -- calls of the file system failing, gives the settings that the first one gave: from a home directory
  -- with or without a settings file, with a malformed one, with a legacy directory, and with faults,
  -- a write that leaves a part of the file included.
  pub read_settings_stable :
      (round_trips : RoundTrips) (cuts : CutsFail) (faults : Faults) (h : Home)
      → (reading faults (reading faults h).1).0 ≡ (reading faults h).0
  read_settings_stable round_trips cuts faults h =
      stable round_trips cuts faults.rename_fails faults.create_fails faults.write faults.read_fails
        h.new h.old

  -- Where the legacy directory is there and the new one is not, and the file can be renamed and read, the
  -- settings are those of the legacy file, or the defaults if it is malformed; the directory is then the
  -- new one, with its text as it was, and the legacy one is gone.
  read_settings_migrated :
      (faults : Faults) (s : Text)
      → faults.rename_fails ≡ false
      → faults.read_fails ≡ false
      → ((reading faults (record { new = missing; old = dir (some s) })).0
          ≡ (elim (from_str s) [ some cfg ↦ cfg | none ↦ default_settings ]))
        × ((reading faults (record { new = missing; old = dir (some s) })).1
            ≡ record { new = dir (some s); old = missing })
  unfolding read_settings
  read_settings_migrated faults s moved read = (rw (moved, read), rw moved)
