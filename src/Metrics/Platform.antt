-- ===== src/Metrics/Platform.antt =====
-- metrics/platform.rs: `format_uptime`, `distro`, `kernel` and `collect`. What `sysinfo::System` answers is
-- an argument; `DISTRO` keeps its first value, so it is given as what it holds.
pub mod Uptime
mod Tests
use vigil_collector.Prelude.{
  ℕ, ◌/◌, ◌%◌, Option, none, some, List, [], ◌∷◌, ◌++◌, ltb, ◌==◌, if◌then◌else◌,
}
use vigil_collector.Text.{Text, codes, strip_prefix, trim_matches, lines_from, lines, join}
use vigil_collector.Text.Number.{decimal}
use vigil_collector.Snapshot.{PlatformInfo}
use vigil_collector.Metrics.Disk.Partitions.{or_else}

-- `format!("{} day{}", …)` and its likes; `word` has the blank before it.
unfoldable pub counted_word : ℕ → Text → Text
unfolding decimal
counted_word n word = decimal n ++ word ++ (if n == 1 then [] else codes "s")

-- `if n > 0 { parts.push(…) }`.
unfoldable pub push_part : ℕ → Text → List Text → List Text
unfolding counted_word
push_part n word parts = if ltb 0 n then parts ++ counted_word n word ∷ [] else parts

-- `parts.join(", ")`, of the four numbers.
unfoldable pub join_parts : ℕ → ℕ → ℕ → ℕ → Text
unfolding push_part join
join_parts days hours minutes seconds =
    let parts = push_part days (codes " day") [] in
    let parts' = push_part hours (codes " hr") parts in
    let parts'' = push_part minutes (codes " min") parts' in
    join (codes ", ") (push_part seconds (codes " sec") parts'')

unfoldable pub format_uptime : ℕ → Text
format_uptime total =
    if total == 0
    then []
    else let rem = total % 86400 in
      let rem' = rem % 3600 in join_parts (total / 86400) (rem / 3600) (rem' / 60) (rem' % 60)

-- The value behind a key of `/etc/os-release`, without its quotes, if the line has the key.
unfoldable pub value_of : Text → Text → Option Text
unfolding strip_prefix trim_matches
value_of key line = elim (strip_prefix key line) [
  | none ↦ none
  | some v ↦ some (trim_matches (λ c. c == b'"') v)
]

abbrev pub pretty_key : Text
pretty_key = codes "PRETTY_NAME="

abbrev pub name_key : Text
name_key = codes "NAME="

-- One round of the loop over the lines, with `pretty` and `name` so far, and what the line has of each.
abbrev pub with_values :
    Option Text → Option Text → Option Text × Option Text → Option Text × Option Text
with_values (some s) n found = (some s, found.1)
with_values none (some s) found = (found.0, some s)
with_values none none found = found

unfoldable pub scan_release : List Text → Option Text × Option Text → Option Text × Option Text
unfolding value_of
scan_release [] found = found
scan_release (line ∷ more) found =
    scan_release more (with_values (value_of pretty_key line) (value_of name_key line) found)

unfoldable pub or_name : Option Text → Text
or_name none = codes "unknown"
or_name (some s) = s

-- What the closure of `get_or_init` computes; `system_name` is `System::name()`.
unfoldable pub find_distro : Option Text → Option Text → Text
unfolding scan_release or_name lines_from or_else
find_distro none system_name = or_name system_name
find_distro (some raw) system_name =
    let found = scan_release (lines raw) (none, none) in
    elim (or_else found.0 found.1) [ none ↦ or_name system_name | some s ↦ s ]

-- The static cell, and what the call gives: the first value stays.
unfoldable pub distro : Option Text → Option Text → Option Text → Text × Option Text
unfolding find_distro
distro (some s) os_release system_name = (s, some s)
distro none os_release system_name = let s = find_distro os_release system_name in (s, some s)

unfoldable pub kernel : Option Text → Text
kernel none = []
kernel (some version) = version

-- `os_release` and `distro_cell` as for `distro`, `version` as for `kernel`, and the uptime in seconds.
unfoldable pub collect_platform :
    Option Text → Option Text → Option Text → Option Text → ℕ → PlatformInfo
unfolding distro kernel format_uptime join_parts
collect_platform distro_cell os_release system_name version uptime = record {
  distro = (distro distro_cell os_release system_name).0;
  kernel = kernel version;
  uptime = format_uptime uptime;
}
