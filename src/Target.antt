-- ===== src/Target.antt =====
-- The system that the program is compiled for, which `cfg(target_os = …)` and `cfg(unix)` ask for.
use vigil_collector.Prelude.{Bool, true, false}
use vigil_collector.Text.{Text}

-- Another system: whether it is a Unix, and its name in `std::env::consts::OS`.
pub data Target : Type 0 where
  linux macos windows : Target
  other : Bool → Text → Target

abbrev pub is_unix : Target → Bool
is_unix linux = true
is_unix macos = true
is_unix windows = false
is_unix (other unix os) = unix
