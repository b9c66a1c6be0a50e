-- ===== src/Log/Tests.antt =====
-- The set-up of the log at concrete settings.
use vigil_collector.Prelude.{
  ◌-◌, ◌≡◌, refl, ◌↔◌, ◌⊎◌, true, false, ◌&&◌, none, some, [], ◌∷◌, leb, if◌then◌else◌,
}
use vigil_collector.Text.{Text, codes, text_eq}
use vigil_collector.Log.{
  LogState, Faults, Filters, done, failed, directive, init, log_file_path, format_time,
}
use vigil_collector.Log.Setup.{word_of, mutes, wanted, init_cases}

abbrev upper : Text → Text
upper [] = []
upper (c ∷ s) = (if leb b'a' c && leb c b'z' then c - 32 else c) ∷ upper s

level_in_any_case : directive upper (codes "warn") true ≡ codes "vigil_collector=warn"
unfolding directive
level_in_any_case = refl

log_file : log_file_path (some (codes "/home/a")) ≡ codes "/home/a/.vigil-collector-logs/app.log"
unfolding log_file_path
log_file = refl

stamp : format_time (λ t. some t) none (codes "12:00") ≡ some (codes "[12:00]")
unfolding format_time
stamp = refl

-- The environment sets a filter, and the settings switch the log off.
abbrev from_env : Filters Text
from_env = record { from_default_env = some (codes "debug"); new_filter = λ d. d }

abbrev old_log : LogState Text
old_log = record { dir_exists = true; file = some (codes "old"); filter = none }

abbrev no_faults : Faults
no_faults = record { create_fails = false; open_fails = false }

env_unmutes :
    init upper from_env no_faults (codes "info") false old_log
    ≡ (done, record { dir_exists = true; file = some []; filter = some (codes "debug") })
unfolding init
env_unmutes = refl

-- The environment sets no filter.
abbrev no_env : Filters Text
no_env = record { from_default_env = none; new_filter = λ d. d }

warns : wanted no_env true (codes "WARN") ≡ codes "vigil_collector=warn"
unfolding wanted mutes word_of text_eq
warns = refl

init_cases_example :
    let r = init upper no_env no_faults (codes "Warn") false old_log in
    (r.0 ≡ done
      ↔ (no_faults.create_fails ≡ false) × (no_faults.open_fails ≡ false) × (old_log.filter ≡ none))
    × (r.0 ≡ failed ↔ (no_faults.create_fails ≡ true) ⊎ (no_faults.open_fails ≡ true))
    × (r.1.dir_exists ≡ true)
    × (r.1.file ≡ some [])
    × (r.1.filter ≡ some (codes "off"))
unfolding wanted mutes
init_cases_example = init_cases upper no_env no_faults (codes "Warn") false old_log
