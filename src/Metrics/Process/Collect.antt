-- ===== src/Metrics/Process/Collect.antt =====
-- metrics/process.rs: `collect_top` and `collect_top_cpu` behind the grouping.
use vigil_collector.Prelude.{
  ℕ, ◌-◌, Bool, false, ◌&&◌, Option, none, some, List, [], ◌∷◌, ◌++◌, map, ltb, ◌==◌, if◌then◌else◌,
  length, get_elem?, take,
}
use vigil_collector.Float.{Float, Cmp, partial_cmp}
use vigil_collector.Text.{Text, codes, join}
use mathlib.Core.List.{head?}
use vigil_collector.Sort.{sort_by}
use vigil_collector.Snapshot.{Process, ProcessCpu}
use vigil_collector.Metrics.{round2}
use vigil_collector.Metrics.Process.Groups.{
  Aggregated, AggregatedCpu, SysProcess, group_by_name, group_by_name_cpu,
}
use vigil_collector.Metrics.Process.Pss.{ProcFs, group_pss_mb}

abbrev pub top_n : ℕ
top_n = 10

-- `partial_cmp(…).unwrap_or(Ordering::Equal)`.
unfoldable pub or_equal : Option Cmp → Cmp
or_equal none = Cmp.equal
or_equal (some c) = c

abbrev pub Entry : Type 0 → Type 0
Entry F = Text × Aggregated F

abbrev pub CpuEntry : Type 0 → Type 0
CpuEntry F = Text × AggregatedCpu F

module _ {F : Type 0} ⦃f : Float F⦄ where
  -- Both closures compare `b` with `a`, so the largest comes first.
  unfoldable pub by_mem_desc : Entry F → Entry F → Cmp
  unfolding partial_cmp or_equal
  by_mem_desc a b = or_equal (partial_cmp b.1.mem_mb a.1.mem_mb)

  unfoldable pub by_cpu_desc : CpuEntry F → CpuEntry F → Cmp
  unfolding partial_cmp or_equal
  by_cpu_desc a b = or_equal (partial_cmp b.1.cpu_pct a.1.cpu_pct)

  -- `agg.mem_mb <= top[TOP_N - 1].1.mem_mb`, where the guard before it has seen that `top` is full.
  unfoldable pub no_larger_than_last : F → List (Entry F) → Bool
  no_larger_than_last x top = elim (get_elem? top 9) [
    | none ↦ false
    | some last ↦ f.le x last.1.mem_mb
  ]

  abbrev pub with_mem : (Aggregated F → F) → Entry F → Entry F
  with_mem pss (name, agg) = (name, record agg { mem_mb = pss agg })

  -- `top.pop()` if `top.len() > TOP_N`, where `top` has one entry more at most.
  unfoldable pub pop_over : List (Entry F) → List (Entry F)
  pop_over top = if ltb top_n (length top) then take (length top - 1) top else top

  -- The loop over `entries`; `pss` is `group_pss_mb(sys, …)`.
  unfoldable pub stream_top : (Aggregated F → F) → List (Entry F) → List (Entry F) → List (Entry F)
  unfolding sort_by by_mem_desc no_larger_than_last pop_over
  stream_top pss top [] = top
  stream_top pss top (e ∷ rest) =
      let pushed =
        stream_top pss (pop_over (sort_by by_mem_desc (top ++ with_mem pss e ∷ []))) rest in
      if (length top == top_n) && no_larger_than_last e.1.mem_mb top then top else pushed

  unfoldable pub to_process : Entry F → Process F
  unfolding join round2
  to_process (name, agg) = record {
    pid = elim (head? agg.pids) [ none ↦ 0 | some p ↦ p ];
    name = name;
    username = join (codes ", ") agg.usernames;
    mem = round2 agg.mem_mb;
  }

  -- The entries that `collect_top` ends with; `by_name` as the map yields it.
  unfoldable pub final_entries : Bool → (Aggregated F → F) → List (Entry F) → List (Entry F)
  unfolding sort_by by_mem_desc stream_top
  final_entries supported pss by_name =
      let entries = sort_by by_mem_desc by_name in
      if supported then stream_top pss [] entries else take top_n entries

  unfoldable pub collect_top :
      (List (Entry F) → List (Entry F))
      → ProcFs
      → Bool
      → (ℕ → Option Text)
      → List (SysProcess F)
      → List (Process F)
  unfolding group_by_name final_entries group_pss_mb to_process
  collect_top into_iter fs supported users ps =
      map to_process
        (final_entries supported (group_pss_mb fs ps) (into_iter (group_by_name users ps [])))

  unfoldable pub to_process_cpu : CpuEntry F → ProcessCpu F
  unfolding join round2
  to_process_cpu (name, agg) = record {
    pid = agg.pid;
    name = name;
    username = join (codes ", ") agg.usernames;
    cpu = round2 agg.cpu_pct;
  }

  unfoldable pub final_entries_cpu : List (CpuEntry F) → List (CpuEntry F)
  unfolding sort_by by_cpu_desc
  final_entries_cpu by_name = take top_n (sort_by by_cpu_desc by_name)

  unfoldable pub collect_top_cpu :
      (List (CpuEntry F) → List (CpuEntry F))
      → (ℕ → Option Text)
      → List (SysProcess F)
      → List (ProcessCpu F)
  unfolding group_by_name_cpu final_entries_cpu to_process_cpu
  collect_top_cpu into_iter users ps =
      map to_process_cpu (final_entries_cpu (into_iter (group_by_name_cpu users ps [])))
