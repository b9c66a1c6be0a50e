-- ===== src/Sampler/State.antt =====
-- sampler.rs: `SamplerState` and its `refresh`. sysinfo and the collectors' other sources are one
-- parameter: the type of a handle to the system, the calls that bring parts of it up to date with the
-- world, and what each collector reads.
use vigil_collector.Prelude.{ℕ, ◌+◌, ◌%◌, ◌^◌, Bool, ◌||◌, List, [], ◌∷◌, ◌==◌, if◌then◌else◌}
use vigil_collector.Text.{Text, codes}
use vigil_collector.Snapshot.{
  Cpu, Mem, Disk, DiskInfo, DiskIo, Throughput, PlatformInfo, Process, ProcessCpu, NetIfaceStats,
  Snapshot,
}

abbrev pub process_scan_every : ℕ
process_scan_every = 5

abbrev pub disk_list_refresh_every : ℕ
disk_list_refresh_every = 60

-- The handles of sysinfo (`sys`, `disks`, `networks`, `components`, `users`) are one value of `Sys`, and
-- `W` is the state of the world at a tick.
pub record Sources (F Sys W Prev : Type 0) : Type 0 where
  -- `refresh_cpu_usage`, `refresh_memory`, `networks.refresh()` and `components.refresh()`.
  pub refresh_counters : W → Sys → Sys
  -- `refresh_cpu_frequency`, `users.refresh_list()` and `refresh_processes_specifics`.
  pub refresh_processes : W → Sys → Sys
  -- `disks.refresh_list()`.
  pub refresh_disks : W → Sys → Sys
  -- `SamplerState::new`, as far as sysinfo is concerned.
  pub open_sys : W → Sys
  pub core_count : Sys → ℕ
  pub collect_top : W → Sys → List (Process F)
  pub metric_label : W → Sys → Text
  pub collect_top_cpu : Sys → List (ProcessCpu F)
  pub collect_cpu : W → Sys → ℕ → Cpu F
  pub collect_mem : Sys → Mem F
  pub collect_root : W → Sys → Disk F
  pub collect_all : W → Sys → List (DiskInfo F)
  -- The two collectors that keep the reading before.
  pub collect_io : W → Prev → DiskIo × Prev
  pub collect_throughput : W → Sys → Prev → Throughput × Prev
  pub no_prev : Prev
  pub platform : W → PlatformInfo
  pub user : W → Text
  pub interface_names : Sys → List Text
  pub statistics : W → Sys → List (Text × NetIfaceStats F)

-- `tick` is a `u64`.
pub record SamplerState (F Sys Prev : Type 0) : Type 0 where
  pub sys : Sys
  pub cores : ℕ
  pub disk_io_prev : Prev
  pub net_io_prev : Prev
  pub tick : ℕ
  pub cached_processes : List (Process F)
  pub cached_processes_metric : Text
  pub cached_processes_by_cpu : List (ProcessCpu F)

unfoldable pub is_scan_tick : ℕ → Bool
is_scan_tick tick = (tick == 0) || (tick % process_scan_every == 0)

unfoldable pub is_disk_tick : ℕ → Bool
is_disk_tick tick = (tick == 0) || (tick % disk_list_refresh_every == 0)

module _ {F Sys W Prev : Type 0} (src : Sources F Sys W Prev) where
  unfoldable pub new_state : W → SamplerState F Sys Prev
  new_state w = record {
    sys = src.open_sys w;
    cores = src.core_count (src.open_sys w);
    disk_io_prev = src.no_prev;
    net_io_prev = src.no_prev;
    tick = 0;
    cached_processes = [];
    cached_processes_metric = codes "rss";
    cached_processes_by_cpu = [];
  }

  -- The first `if`: the scan of the processes.
  unfoldable pub scan : W → SamplerState F Sys Prev → SamplerState F Sys Prev
  scan w s =
      let sys = src.refresh_processes w s.sys in
      record s {
        sys = sys;
        cached_processes = src.collect_top w sys;
        cached_processes_metric = src.metric_label w sys;
        cached_processes_by_cpu = src.collect_top_cpu sys;
      }

  -- `refresh` up to the increment of `tick`.
  unfoldable pub advance : W → SamplerState F Sys Prev → SamplerState F Sys Prev
  unfolding scan is_scan_tick is_disk_tick
  advance w s =
      let s1 = record s { sys = src.refresh_counters w s.sys } in
      let s2 = if is_scan_tick s1.tick then scan w s1 else s1 in
      let s3 =
        if is_disk_tick s2.tick then record s2 { sys = src.refresh_disks w s2.sys } else s2 in
      record s3 { tick = (s3.tick + 1) % 2 ^ 64 }

  unfoldable pub snapshot_of : W → SamplerState F Sys Prev → Snapshot F
  snapshot_of w s = record {
    cpu = src.collect_cpu w s.sys s.cores;
    mem = src.collect_mem s.sys;
    disk = src.collect_root w s.sys;
    disks = src.collect_all w s.sys;
    disk_io = (src.collect_io w s.disk_io_prev).0;
    network = (src.collect_throughput w s.sys s.net_io_prev).0;
    user = src.user w;
    platform = src.platform w;
    uptime = (src.platform w).uptime;
    processes = s.cached_processes;
    processes_metric = s.cached_processes_metric;
    processes_by_cpu = s.cached_processes_by_cpu;
    interfaces = src.interface_names s.sys;
    network_stats = src.statistics w s.sys;
  }

  unfoldable pub keep_readings : W → SamplerState F Sys Prev → SamplerState F Sys Prev
  keep_readings w s = record s {
    disk_io_prev = (src.collect_io w s.disk_io_prev).1;
    net_io_prev = (src.collect_throughput w s.sys s.net_io_prev).1;
  }

  unfoldable pub refresh : W → SamplerState F Sys Prev → SamplerState F Sys Prev × Snapshot F
  unfolding advance snapshot_of keep_readings
  refresh w s = let s' = advance w s in (keep_readings w s', snapshot_of w s')

  -- The snapshots of a series of ticks.
  unfoldable pub refreshes :
      List W → SamplerState F Sys Prev → SamplerState F Sys Prev × List (Snapshot F)
  unfolding refresh
  refreshes [] s = (s, [])
  refreshes (w ∷ ws) s =
      let r = refresh w s in let later = refreshes ws r.0 in (later.0, r.1 ∷ later.1)
