-- ===== src/Metrics/Processor.antt =====
-- metrics/cpu.rs: usage, frequency, temperature and load. The readings of sysinfo, the files
-- of /sys/class/thermal and `getloadavg` are arguments.
pub mod Temperature
mod Tests
use vigil_collector.Prelude.{
  ℕ, ◌+◌, ◌-◌, ◌^◌, Bool, true, false, not, ◌&&◌, ◌||◌, Option, none, some, List, [], ◌∷◌, leb,
  ◌==◌, if◌then◌else◌, length,
}
use vigil_collector.Float.{Float}
use vigil_collector.Text.{Text, codes, starts_with, contains_text, trim}
use vigil_collector.Text.Number.{parse_nonempty}
use vigil_collector.Target.{Target, linux, macos, windows, other, is_unix}
use vigil_collector.Snapshot.{Cpu, LoadAvg}
use vigil_collector.Metrics.{round1, round2}
use vigil_collector.Metrics.Disk.Partitions.{contains_name, or_else}

abbrev pub cpu_temp_label_priority : List Text
cpu_temp_label_priority = codes "package" ∷ codes "tctl" ∷ codes "tdie" ∷ codes "cpu" ∷ []

abbrev pub cpu_temp_thermal_types : List Text
cpu_temp_thermal_types =
    codes "x86_pkg_temp" ∷ codes "cpu-thermal" ∷ codes "cpu_thermal" ∷ codes "soc_thermal" ∷ []

-- A sensor of sysinfo; the `f32` is taken as the `f64` that it is cast to.
pub record Component (F : Type 0) : Type 0 where
  pub label : Text
  pub temperature : F

-- An entry of /sys/class/thermal, with the files `type` and `temp`, where they can be read.
pub record Zone : Type 0 where
  pub name : Text
  pub type_file : Option Text
  pub temp_file : Option Text

unfoldable pub to_ascii_lowercase : Text → Text
to_ascii_lowercase [] = []
to_ascii_lowercase (c ∷ s) = (if leb b'A' c && leb c b'Z' then c + 32 else c) ∷ to_ascii_lowercase s

unfoldable pub any_contained : Text → List Text → Bool
unfolding contains_text
any_contained label [] = false
any_contained label (needle ∷ more) = contains_text needle label || any_contained label more

unfoldable pub is_labelled : Text → Bool
unfolding any_contained to_ascii_lowercase
is_labelled label = any_contained (to_ascii_lowercase label) cpu_temp_label_priority

-- `parse::<i64>()`: the sign, true for minus, and the magnitude, up to 2^63 - 1, or 2^63 below zero.
unfoldable pub parse_i64 : Text → Option (Bool × ℕ)
unfolding parse_nonempty
parse_i64 [] = none
parse_i64 (c ∷ s) =
    if c == b'-'
    then signed true (parse_nonempty (2 ^ 63) s)
    else if c == b'+'
    then signed false (parse_nonempty (2 ^ 63 - 1) s)
    else signed false (parse_nonempty (2 ^ 63 - 1) (c ∷ s))
  where
    signed : Bool → Option ℕ → Option (Bool × ℕ)
    signed minus none = none
    signed minus (some n) = some (minus, n)

module _ {F : Type 0} ⦃f : Float F⦄ where
  -- The loop over the components, with `any_numeric` so far.
  unfoldable pub choose_temp : Option F → List (Component F) → Option F
  unfolding is_labelled or_else
  choose_temp any_numeric [] = any_numeric
  choose_temp any_numeric (c ∷ more) =
      if not (f.is_finite c.temperature)
      then choose_temp any_numeric more
      else if is_labelled c.label
      then some c.temperature
      else choose_temp (or_else any_numeric (some c.temperature)) more

  unfoldable pub rounded_temp : Option F → Option F
  unfolding round1
  rounded_temp none = none
  rounded_temp (some t) = some (round1 t)

  unfoldable pub read_via_components : List (Component F) → Option F
  unfolding choose_temp rounded_temp
  read_via_components components = rounded_temp (choose_temp none components)

  -- `milli as f64` comes with the reading.
  unfoldable pub zone_temp : (Bool × ℕ → F) → Zone → Option F
  unfolding starts_with contains_name trim parse_i64 round1
  zone_temp of_i64 z =
      let reading : Option F = elim z.type_file [
        | none ↦ none
        | some kind ↦ elim z.temp_file [
          | none ↦ none
          | some raw ↦ elim (parse_i64 (trim raw)) [
            | none ↦ none
            | some milli ↦
                if contains_name cpu_temp_thermal_types (trim kind)
                then some (round1 (f.div (of_i64 milli) (f.lit 1000 0)))
                else none
          ]
        ]
      ] in
      if starts_with (codes "thermal_zone") z.name then reading else none

  unfoldable pub first_zone : (Bool × ℕ → F) → List Zone → Option F
  unfolding zone_temp or_else
  first_zone of_i64 [] = none
  first_zone of_i64 (z ∷ zs) = or_else (zone_temp of_i64 z) (first_zone of_i64 zs)

  -- The directory, if it can be read.
  unfoldable pub read_via_thermal_zones : (Bool × ℕ → F) → Option (List Zone) → Option F
  unfolding first_zone
  read_via_thermal_zones of_i64 none = none
  read_via_thermal_zones of_i64 (some zones) = first_zone of_i64 zones

  -- A failed reading is zero, and on Windows and where nothing is known there is none.
  unfoldable pub read_cpu_temp :
      Target → (Bool × ℕ → F) → List (Component F) → Option (List Zone) → F
  unfolding read_via_components read_via_thermal_zones or_else
  read_cpu_temp linux of_i64 components zones =
      elim (or_else (read_via_components components) (read_via_thermal_zones of_i64 zones)) [
        | none ↦ f.lit 0 0
        | some t ↦ t
      ]
  read_cpu_temp macos of_i64 components zones = elim (read_via_components components) [
    | none ↦ f.lit 0 0
    | some t ↦ t
  ]
  read_cpu_temp windows of_i64 components zones = f.lit 0 0
  read_cpu_temp (other unix os) of_i64 components zones = f.lit 0 0

  -- `getloadavg` fills the buffer and tells how many samples it got, or fails.
  unfoldable pub read_load_avg : Target → Option ℕ → LoadAvg F → Option (LoadAvg F)
  read_load_avg target n buf =
      let samples : Option (LoadAvg F) = elim n [
        | none ↦ none
        | some n ↦ if n == 3 then some buf else none
      ] in
      if is_unix target then samples else none

  -- The frequencies above zero, and their sum.
  unfoldable pub positive : List F → List F
  positive [] = []
  positive (x ∷ xs) = let rest = positive xs in if f.lt (f.lit 0 0) x then x ∷ rest else rest

  unfoldable pub sum_from : F → List F → F
  sum_from acc [] = acc
  sum_from acc (x ∷ xs) = sum_from (f.add acc x) xs

  unfoldable pub mean_freq : List F → F
  unfolding positive sum_from round2
  mean_freq frequencies =
      let freqs = positive frequencies in
      if length freqs == 0
      then f.lit 0 0
      else round2 (f.div (sum_from (f.lit 0 0) freqs) (f.of_u64 (length freqs)))

  -- `frequencies` has one entry for each CPU; the readings of sysinfo and of the C library are arguments.
  unfoldable pub collect_cpu :
      Target
      → (Bool × ℕ → F)
      → F
      → List F
      → List (Component F)
      → Option (List Zone)
      → Option ℕ
      → LoadAvg F
      → ℕ
      → Cpu F
  unfolding mean_freq read_cpu_temp read_load_avg round2
  collect_cpu target of_i64 global_cpu_usage frequencies components zones samples buf cores =
      record {
        usage = if length frequencies == 0 then f.lit 0 0 else round2 global_cpu_usage;
        temp = read_cpu_temp target of_i64 components zones;
        freq = mean_freq frequencies;
        cores = cores;
        load = read_load_avg target samples buf;
      }
