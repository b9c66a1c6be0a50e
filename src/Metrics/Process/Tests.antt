-- ===== src/Metrics/Process/Tests.antt =====
-- Runs of the rankings, and their theorems at concrete processes.
use vigil_collector.Prelude.{
  ℕ, ◌≡◌, refl, true, false, Option, none, some, List, [], ◌∷◌, map, arith, ◌==◌, if◌then◌else◌,
  take,
}
use vigil_collector.Text.{Text, codes, text_eq, strip_prefix, is_whitespace, strip_cr}
use vigil_collector.Text.Number.{decimal}
use vigil_collector.Float.Millis.{Millis, millis_float, Millis-IsOrdered}
use vigil_collector.Sort.{sort_by}
use vigil_collector.Metrics.Process.Groups.{
  set_insert, SysProcess, Aggregated, find_entry, group_by_name, group_by_name_cpu, display_name,
}
use vigil_collector.Metrics.Process.Pss.{ProcFs, detect_pss, read_pss_kb}
use vigil_collector.Metrics.Process.Smaps.{read_pss_kb-printed}
use vigil_collector.Metrics.Process.Collect.{
  Entry, CpuEntry, by_mem_desc, with_mem, top_n, final_entries, final_entries_cpu, collect_top,
}
use vigil_collector.Metrics.Process.Grouping.{
  members, group_of, find_entry-group_by_name, HasPid, last_busy_pid,
}
use vigil_collector.Metrics.Process.Collecting.{
  IsTop, final_entries-eq-take, final_entries_cpu-IsTop,
}

abbrev shell : SysProcess Millis
shell = record {
  pid = 11;
  is_thread = false;
  name = codes "sh";
  memory = 4194304;
  cpu_usage = some 9000;
  user_id = some 0;
}

abbrev second_shell : SysProcess Millis
second_shell = record {
  pid = 12;
  is_thread = false;
  name = codes "sh";
  memory = 2097152;
  cpu_usage = some 500;
  user_id = none;
}

abbrev database : SysProcess Millis
database = record {
  pid = 20;
  is_thread = false;
  name = codes "db";
  memory = 8388608;
  cpu_usage = some 0;
  user_id = some 5;
}

abbrev worker_thread : SysProcess Millis
worker_thread = record {
  pid = 21;
  is_thread = true;
  name = codes "db";
  memory = 8388608;
  cpu_usage = some 70000;
  user_id = some 5;
}

abbrev processes : List (SysProcess Millis)
processes = shell ∷ database ∷ worker_thread ∷ second_shell ∷ []

abbrev users : ℕ → Option Text
users uid = if uid == 0 then some (codes "root") else none

-- The shells share half of their memory, and the database's rollup is not readable.
abbrev proc_fs : ProcFs
proc_fs = record {
  smaps_rollup = λ pid.
      if pid == 11
      then some (codes "5500 rollup\nRss:  4096 kB\nPss:      2048 kB\n")
      else if pid == 12
      then some (codes "5500 rollup\nPss:  1024 kB\n")
      else none;
  exists = λ pid. true;
}

ranked_by_pss :
    collect_top (λ m. m) proc_fs true users processes
    ≡ record { pid = 20; name = codes "db"; username = []; mem = some 8000 }
      ∷ record { pid = 11; name = codes "sh"; username = codes "root"; mem = some 3000 }
      ∷ []
unfolding collect_top text_eq set_insert
ranked_by_pss = refl

denied : detect_pss proc_fs 11 processes ≡ true
unfolding detect_pss
denied = refl

-- Groups whose proportional size is half of the resident size.
abbrev halved : Aggregated Millis → Millis
halved agg = millis_float.div agg.mem_mb (some 2000)

abbrev group : ℕ → Aggregated Millis
group m = record { mem_mb = some m; pids = []; usernames = [] }

abbrev groups : List (Entry Millis)
groups = (codes "a", group 10) ∷ (codes "b", group 30) ∷ (codes "c", group 20) ∷ []

final_entries-eq-take_example :
    final_entries true halved groups
    ≡ take top_n (sort_by by_mem_desc (map (with_mem halved) (sort_by by_mem_desc groups)))
final_entries-eq-take_example =
    final_entries-eq-take Millis-IsOrdered halved groups (refl, (refl, (refl, tt)))

abbrev cpu_groups : List (CpuEntry Millis)
cpu_groups =
    (codes "a", record { cpu_pct = some 10; pid = 1; usernames = [] })
    ∷ (codes "b", record { cpu_pct = some 30; pid = 2; usernames = [] })
    ∷ []

final_entries_cpu-IsTop_example : IsTop (λ e. e.1.cpu_pct) (final_entries_cpu cpu_groups) cpu_groups
final_entries_cpu-IsTop_example =
    final_entries_cpu-IsTop Millis-IsOrdered cpu_groups (refl, (refl, tt))

find_entry-group_by_name_example :
    find_entry (codes "sh") (group_by_name users processes [])
    ≡ group_of users (codes "sh") (members users (codes "sh") processes)
find_entry-group_by_name_example = find_entry-group_by_name users (codes "sh") processes

-- The shell with a share of 0.5 stands for the group, not the one with a share of 9.
last_busy_pid_example :
    HasPid users
      (codes "sh")
      12
      (find_entry (codes "sh") (group_by_name_cpu users (shell ∷ database ∷ second_shell ∷ []) []))
unfolding display_name
last_busy_pid_example =
    last_busy_pid users (codes "sh") (shell ∷ database ∷ []) second_shell []
      (refl, refl, refl, λ e. omega arith) tt

abbrev rollup : ProcFs
rollup = record {
  smaps_rollup =
      λ pid. if pid == 7 then some (codes "Rss: 9 kB\nPss:   512 kB\nPss_Dirty: 1 kB\n") else none;
  exists = λ pid. true;
}

read_pss_kb-printed_example : read_pss_kb rollup 7 ≡ some 512
unfolding strip_prefix strip_cr is_whitespace decimal
read_pss_kb-printed_example =
    read_pss_kb-printed rollup 7 (codes "Rss: 9 kB" ∷ []) (codes "   ") (codes "Pss_Dirty: 1 kB\n")
      512 refl
      (((refl, (refl, (refl, (refl, (refl, (refl, (refl, (refl, (refl, tt))))))))), refl), tt)
      (refl, (refl, (refl, tt))) (refl, (refl, (refl, tt))) (omega arith)
