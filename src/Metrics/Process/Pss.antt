-- ===== src/Metrics/Process/Pss.antt =====
-- metrics/process.rs: proportional set sizes, on Linux. What stands under /proc is an argument.
use vigil_collector.Prelude.{
  ℕ, Bool, true, false, Option, none, some, List, [], ◌∷◌, ◌==◌, if◌then◌else◌,
}
use vigil_collector.Float.{Float}
use vigil_collector.Text.{
  Text, codes, strip_prefix, trim, lines_from, lines, words_from, split_whitespace,
}
use vigil_collector.Text.Number.{saturating_add, saturating_mul, parse_u64}
use vigil_collector.Sort.{sort_by, cmp_u32}
use vigil_collector.Metrics.Process.Groups.{Aggregated, SysProcess, to_mb}

-- The files of /proc: `smaps_rollup` of a process, if it is readable, and whether /proc/<pid> exists.
pub record ProcFs : Type 0 where
  pub smaps_rollup : ℕ → Option Text
  pub exists : ℕ → Bool

-- `rest.trim().split_whitespace().next()?` and `val.parse::<u64>().ok()`.
unfoldable pub pss_value : Text → Option ℕ
unfolding trim words_from parse_u64
pss_value rest = elim (split_whitespace (trim rest)) [ [] ↦ none | val ∷ more ↦ parse_u64 val ]

unfoldable pub pss_of_lines : List Text → Option ℕ
unfolding pss_value strip_prefix
pss_of_lines [] = none
pss_of_lines (line ∷ more) =
    let later = pss_of_lines more in
    elim (strip_prefix (codes "Pss:") line) [ none ↦ later | some rest ↦ pss_value rest ]

unfoldable pub read_pss_kb : ProcFs → ℕ → Option ℕ
unfolding pss_of_lines lines_from
read_pss_kb fs pid = elim (fs.smaps_rollup pid) [
  | none ↦ none
  | some raw ↦ pss_of_lines (lines raw)
]

unfoldable pub detect_loop : ProcFs → List ℕ → Bool
unfolding read_pss_kb
detect_loop fs [] = false
detect_loop fs (p ∷ ps) =
    let later = detect_loop fs ps in
    elim (read_pss_kb fs p) [ some kb ↦ true | none ↦ if fs.exists p then false else later ]

unfoldable pub foreign_pids : {F : Type 0} → ℕ → List (SysProcess F) → List ℕ
foreign_pids own [] = []
foreign_pids own (p ∷ ps) =
    let later = foreign_pids own ps in if p.pid == own then later else p.pid ∷ later

unfoldable pub detect_pss : {F : Type 0} → ProcFs → ℕ → List (SysProcess F) → Bool
unfolding detect_loop foreign_pids sort_by cmp_u32
detect_pss fs own ps = detect_loop fs (sort_by cmp_u32 (foreign_pids own ps))

-- `PSS_SUPPORTED.get_or_init(…)`: the cell so far, and the answer, which the cell holds from then on.
unfoldable pub pss_supported : {F : Type 0} → Option Bool → ProcFs → ℕ → List (SysProcess F) → Bool
unfolding detect_pss
pss_supported none fs own ps = detect_pss fs own ps
pss_supported (some b) fs own ps = b

unfoldable pub process_metric_label : Bool → Text
process_metric_label supported = if supported then codes "pss" else codes "rss"

-- `sys.process(pid).map(|p| p.memory()).unwrap_or(0)`.
unfoldable pub rss_of : {F : Type 0} → List (SysProcess F) → ℕ → ℕ
rss_of [] pid = 0
rss_of (p ∷ ps) pid = let later = rss_of ps pid in if p.pid == pid then p.memory else later

unfoldable pub pss_bytes : {F : Type 0} → ProcFs → List (SysProcess F) → ℕ → ℕ
unfolding read_pss_kb saturating_mul rss_of
pss_bytes fs ps pid = elim (read_pss_kb fs pid) [
  | some kb ↦ saturating_mul kb 1024
  | none ↦ rss_of ps pid
]

unfoldable pub sum_pss_bytes : {F : Type 0} → ProcFs → List (SysProcess F) → ℕ → List ℕ → ℕ
unfolding pss_bytes saturating_add
sum_pss_bytes fs ps sum [] = sum
sum_pss_bytes fs ps sum (pid ∷ pids) =
    sum_pss_bytes fs ps (saturating_add sum (pss_bytes fs ps pid)) pids

module _ {F : Type 0} ⦃f : Float F⦄ where
  unfoldable pub group_pss_mb : ProcFs → List (SysProcess F) → Aggregated F → F
  unfolding sum_pss_bytes to_mb
  group_pss_mb fs ps agg = to_mb (sum_pss_bytes fs ps 0 agg.pids)
