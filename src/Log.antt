-- ===== src/Log.antt =====
-- log.rs: the set-up of the log. tracing's filter is a type of its own; the calls of the file system
-- enter by what fails, and Rust's `to_uppercase` is a parameter.
pub mod Setup
mod Tests
use vigil_collector.Prelude.{Bool, true, not, ◌||◌, Option, none, some, [], ◌++◌, if◌then◌else◌}
use vigil_collector.Text.{Text, codes, text_eq}

-- `home_dir()`, or the current directory, with a name joined to it.
unfoldable pub log_dir : Option Text → Text
log_dir none = codes "./.vigil-collector-logs"
log_dir (some home) = home ++ codes "/.vigil-collector-logs"

unfoldable pub log_file_path : Option Text → Text
unfolding log_dir
log_file_path home = log_dir home ++ codes "/app.log"

-- `level` is in capitals already.
unfoldable pub directive_of : Text → Text
unfolding text_eq
directive_of level =
    if text_eq level (codes "DEBUG")
    then codes "vigil_collector=debug"
    else if text_eq level (codes "WARNING") || text_eq level (codes "WARN")
    then codes "vigil_collector=warn"
    else if text_eq level (codes "ERROR")
    then codes "vigil_collector=error"
    else codes "vigil_collector=info"

unfoldable pub directive : (Text → Text) → Text → Bool → Text
unfolding directive_of
directive to_uppercase level enabled =
    if not enabled then codes "off" else directive_of (to_uppercase level)

-- The file `app.log`, if it is there, and the filter of the subscriber, if one is installed.
pub record LogState (E : Type 0) : Type 0 where
  pub dir_exists : Bool
  pub file : Option Text
  pub filter : Option E

-- Which calls fail.
pub record Faults : Type 0 where
  pub create_fails : Bool
  pub open_fails : Bool

-- tracing's side: the filter that the environment sets, if it does, and the one of a directive.
pub record Filters (E : Type 0) : Type 0 where
  pub from_default_env : Option E
  pub new_filter : Text → E

pub data Exit : Type 0 where
  done failed panicked : Exit

-- `try_from_default_env().unwrap_or_else(…)`.
unfoldable pub env_filter : {E : Type 0} → Filters E → Text → E
env_filter f d = elim f.from_default_env [ none ↦ f.new_filter d | some e ↦ e ]

-- `.init()` panics where a subscriber is installed already.
unfoldable pub install : {E : Type 0} → E → LogState E → Exit × LogState E
install e s = elim s.filter [
  | none ↦ (done, record s { filter = some e })
  | some old ↦ (panicked, s)
]

unfoldable pub init :
    {E : Type 0} → (Text → Text) → Filters E → Faults → Text → Bool → LogState E → Exit × LogState E
unfolding directive env_filter install
init to_uppercase f faults level enabled s =
    let s1 = record s { dir_exists = true } in
    let s2 = record s1 { file = some [] } in
    if faults.create_fails
    then (failed, s)
    else if faults.open_fails
    then (failed, s1)
    else install (env_filter f (directive to_uppercase level enabled)) s2

-- `format_time`: the local time, or UTC where it is not known, in brackets; `none` is its error.
unfoldable pub format_time : {T : Type 0} → (T → Option Text) → Option T → T → Option Text
format_time {T} format now_local now_utc =
    let now : T = elim now_local [ none ↦ now_utc | some t ↦ t ] in
    elim (format now) [ none ↦ none | some s ↦ some (codes "[" ++ s ++ codes "]") ]
