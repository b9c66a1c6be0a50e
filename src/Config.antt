-- ===== src/Config.antt =====
-- config.rs: the settings, where they are kept, and how they are read. serde's reader and printer of the
-- file are parameters; of the home directory the model holds the two entries that the code looks at.
pub mod Reading
mod Tests
use vigil_collector.Prelude.{
  ℕ, Bool, true, Option, none, some, List, [], ◌∷◌, ◌++◌, if◌then◌else◌, take,
}
use vigil_collector.Float.{Float}
use vigil_collector.Text.{Text, codes}

pub record Probe : Type 0 where
  pub name : Text
  pub url : Text

abbrev pub default_probes : List Probe
default_probes =
    record { name = codes "edcs.app"; url = codes "https://edcs.app" }
    ∷ record { name = codes "api.edcs.app"; url = codes "https://api.edcs.app" }
    ∷ []

pub record Settings (F : Type 0) : Type 0 where
  pub logging_enabled : Bool
  pub log_level : Text
  pub address : Text
  pub port_number : ℕ
  pub max_ws_connections : ℕ
  pub ws_push_interval : F
  pub probes : List Probe
  pub probe_timeout : F

-- `Settings::default()`, with the `DEFAULT_` constants.
unfoldable pub default_settings : {F : Type 0} ⦃f : Float F⦄ → Settings F
default_settings ⦃f⦄ = record {
  logging_enabled = true;
  log_level = codes "INFO";
  address = codes "localhost";
  port_number = 4500;
  max_ws_connections = 20;
  ws_push_interval = f.lit 1 0;
  probes = default_probes;
  probe_timeout = f.lit 5 0;
}

-- The fields that serde finds in the file.
pub record Fields (F : Type 0) : Type 0 where
  pub logging_enabled : Option Bool
  pub log_level : Option Text
  pub address : Option Text
  pub port_number : Option ℕ
  pub max_ws_connections : Option ℕ
  pub ws_push_interval : Option F
  pub probes : Option (List Probe)
  pub probe_timeout : Option F

abbrev or_default : {A : Type 0} → Option A → A → A
or_default none d = d
or_default (some x) d = x

-- `#[serde(default = …)]` on each field, with the functions that it names.
unfoldable pub with_defaults : {F : Type 0} ⦃f : Float F⦄ → Fields F → Settings F
with_defaults ⦃f⦄ found = record {
  logging_enabled = or_default found.logging_enabled true;
  log_level = or_default found.log_level (codes "INFO");
  address = or_default found.address (codes "localhost");
  port_number = or_default found.port_number 4500;
  max_ws_connections = or_default found.max_ws_connections 20;
  ws_push_interval = or_default found.ws_push_interval (f.lit 1 0);
  probes = or_default found.probes default_probes;
  probe_timeout = or_default found.probe_timeout (f.lit 5 0);
}

unfoldable pub settings_dir : Option Text → Text
settings_dir home = or_default home (codes ".") ++ codes "/.vigil-collector"

unfoldable pub settings_file : Option Text → Text
unfolding settings_dir
settings_file home = settings_dir home ++ codes "/settings.json"

unfoldable pub legacy_settings_dir : Option Text → Text
legacy_settings_dir home = or_default home (codes ".") ++ codes "/.psmonitor"

-- What stands at a path of the home directory: nothing, something that is no directory, or a directory,
-- with the text of the `settings.json` in it, if it has one.
pub data Entry : Type 0 where
  missing other : Entry
  dir : Option Text → Entry

-- `settings_dir()` and `legacy_settings_dir()`.
pub record Home : Type 0 where
  pub new : Entry
  pub old : Entry

-- How `fs::write` ends: it writes the whole text, it cannot create the file, or it fails when the file has
-- been created and a part of the text, which may be empty, is in it.
pub data Write : Type 0 where
  whole not_created : Write
  cut : ℕ → Write

-- Which calls of the file system fail.
pub record Faults : Type 0 where
  pub rename_fails : Bool
  pub create_fails : Bool
  pub write : Write
  pub read_fails : Bool

unfoldable pub migrated : Bool → Entry → Entry → Home
migrated rename_fails missing (dir file) =
    if rename_fails
    then record { new = missing; old = dir file }
    else record { new = dir file; old = missing }
migrated rename_fails missing missing = record { new = missing; old = missing }
migrated rename_fails missing other = record { new = missing; old = other }
migrated rename_fails other old = record { new = other; old = old }
migrated rename_fails (dir file) old = record { new = dir file; old = old }

unfoldable pub migrate_legacy : Faults → Home → Home
unfolding migrated
migrate_legacy faults h = migrated faults.rename_fails h.new h.old

module _ {F : Type 0} ⦃f : Float F⦄ (to_string_pretty : Settings F → Option Text)
    (from_str : Text → Option (Settings F)) where
  -- What stands in the file behind the write of a first run, where the directory exists; nothing is
  -- written where the printer fails.
  unfoldable pub write_defaults : Faults → Option Text
  unfolding default_settings
  write_defaults faults = elim (to_string_pretty default_settings) [
    | none ↦ none
    | some s ↦ elim faults.write [ whole ↦ some s | not_created ↦ none | cut n ↦ some (take n s) ]
  ]

  -- `if !path.exists() { … }`: `create_dir_all` fails where something else has the name, and never where
  -- the directory is there.
  unfoldable pub first_run : Faults → Home → Settings F × Home
  unfolding write_defaults default_settings
  first_run faults h = elim h.new [
    | other ↦ (default_settings, h)
    | missing ↦
        if faults.create_fails
        then (default_settings, h)
        else (default_settings, record h { new = dir (write_defaults faults) })
    | dir file ↦ (default_settings, record h { new = dir (write_defaults faults) })
  ]

  -- The file is there, with this text.
  unfoldable pub read_file : Faults → Text → Settings F
  unfolding default_settings
  read_file faults s =
      if faults.read_fails
      then default_settings
      else elim (from_str s) [ some cfg ↦ cfg | none ↦ default_settings ]

  unfoldable pub read_from : Faults → Home → Settings F × Home
  unfolding first_run read_file
  read_from faults h = elim h.new [
    | other ↦ first_run faults h
    | missing ↦ first_run faults h
    | dir file ↦ elim file [ none ↦ first_run faults h | some s ↦ (read_file faults s, h) ]
  ]

  unfoldable pub read_settings : Faults → Home → Settings F × Home
  unfolding migrate_legacy read_from
  read_settings faults h = read_from faults (migrate_legacy faults h)
