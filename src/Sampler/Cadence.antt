-- ===== src/Sampler/Cadence.antt =====
-- sampler.rs: how fresh the parts of a snapshot are.
use vigil_collector.Prelude.{
  ℕ, ◌+◌, ◌*◌, ◌/◌, ◌%◌, ◌^◌, ◌≤◌, ◌<◌, ◌≡◌, ◌∙◌, true, false, List, [], ◌∷◌, arith, length, All,
}
use vigil_collector.Text.{Text}
use vigil_collector.Snapshot.{Snapshot, Process, ProcessCpu}
use vigil_collector.Sampler.State.{Sources, SamplerState, is_scan_tick, refresh, refreshes}

module _ {F Sys W Prev : Type 0} (src : Sources F Sys W Prev) where
  -- The snapshot carries these three.
  abbrev pub Shows : List (Process F) → Text → List (ProcessCpu F) → Snapshot F → Type 0
  Shows ps label cpu snap =
      (snap.processes ≡ ps) × (snap.processes_metric ≡ label) × (snap.processes_by_cpu ≡ cpu)

  abbrev Keeps :
      List (Process F) → Text → List (ProcessCpu F) → ℕ → SamplerState F Sys Prev → Type 0
  Keeps ps label cpu tick s =
      (s.cached_processes ≡ ps)
      × (s.cached_processes_metric ≡ label)
      × (s.cached_processes_by_cpu ≡ cpu)
      × (s.tick ≡ tick)

  -- A tick without a scan shows and keeps what the scan before found.
  quiet_tick :
      (w : W) (s : SamplerState F Sys Prev)
      → is_scan_tick s.tick ≡ false
      → s.tick + 1 < 2 ^ 64
      → Shows s.cached_processes s.cached_processes_metric s.cached_processes_by_cpu
          (refresh src w s).1
        × Keeps s.cached_processes s.cached_processes_metric s.cached_processes_by_cpu
            (s.tick + 1)
            (refresh src w s).0
  unfolding refresh
  quiet_tick w s h small = ground arith

  -- What a scan in the world `w` finds.
  abbrev pub scanned : W → SamplerState F Sys Prev → Sys
  scanned w s = src.refresh_processes w (src.refresh_counters w s.sys)

  scan_tick :
      (w : W) (s : SamplerState F Sys Prev)
      → is_scan_tick s.tick ≡ true
      → s.tick + 1 < 2 ^ 64
      → let sys = scanned w s in
        Shows
          (src.collect_top w sys)
          (src.metric_label w sys)
          (src.collect_top_cpu sys)
          (refresh src w s).1
        × Keeps
            (src.collect_top w sys)
            (src.metric_label w sys)
            (src.collect_top_cpu sys)
            (s.tick + 1)
            (refresh src w s).0
  unfolding refresh
  scan_tick w s h small = ground arith

  not_scan : (tick : ℕ) → 0 < tick % 5 → is_scan_tick tick ≡ false
  unfolding is_scan_tick
  not_scan tick h = ground arith

  scan_due : (tick : ℕ) → tick % 5 ≡ 0 → is_scan_tick tick ≡ true
  unfolding is_scan_tick
  scan_due tick h = ground arith

  -- `k` is the number of ticks since the scan.
  quiet_ticks :
      (ps : List (Process F)) (label : Text) (cpu : List (ProcessCpu F)) (q k : ℕ) (ws : List W)
      (s : SamplerState F Sys Prev)
      → Keeps ps label cpu (5 * q + k) s
      → 0 < k
      → k + length ws ≤ 5
      → 5 * q + k + length ws < 2 ^ 64
      → All (Shows ps label cpu) (refreshes src ws s).1
        × ((refreshes src ws s).0.tick ≡ 5 * q + k + length ws)
  unfolding refreshes
  quiet_ticks ps label cpu q k [] s (kp, kl, kc, kt) pos room small = (tt, omega arith)
  quiet_ticks ps label cpu q k (w ∷ ws) s (kp, kl, kc, kt) pos room small =
      let quiet : is_scan_tick s.tick ≡ false = not_scan s.tick (omega arith) in
      let (shows, (cp, cl, cu, ct)) = quiet_tick w s quiet (omega arith) in
      let now : (refresh src w s).0.tick ≡ 5 * q + (k + 1) = omega arith in
      let later =
        quiet_ticks ps label cpu q (k + 1) ws (refresh src w s).0 (cp ∙ kp, cl ∙ kl, cu ∙ kc, now)
          (omega arith) (omega arith) (omega arith) in
      (((shows.0 ∙ kp, shows.1 ∙ kl, shows.2 ∙ kc), later.0), omega (arith, later.1))

  -- The processes are scanned every five ticks. From a tick that is a multiple of five on, this tick's
  -- snapshot and those of up to four ticks after it show what one scan in the first tick's world has
  -- found, its three parts together; and the counter has moved on by as many ticks.
  pub scan_cycle :
      (w : W) (ws : List W) (s : SamplerState F Sys Prev)
      → s.tick % 5 ≡ 0
      → length ws ≤ 4
      → s.tick + 5 < 2 ^ 64
      → let sys = scanned w s in
        All
          (Shows (src.collect_top w sys) (src.metric_label w sys) (src.collect_top_cpu sys))
          (refreshes src (w ∷ ws) s).1
        × ((refreshes src (w ∷ ws) s).0.tick ≡ s.tick + length (w ∷ ws))
  unfolding refreshes
  scan_cycle w ws s start short small =
      let due : is_scan_tick s.tick ≡ true = scan_due s.tick start in
      let (shows, (cp, cl, cu, ct)) = scan_tick w s due (omega arith) in
      let now : (refresh src w s).0.tick ≡ 5 * (s.tick / 5) + 1 = omega arith in
      let later =
        quiet_ticks _ _ _ (s.tick / 5) 1 ws (refresh src w s).0 (cp, cl, cu, now) (omega arith)
          (omega arith) (omega arith) in
      ((shows, later.0), omega (arith, later.1))
