-- ===== src/Sampler/Example.antt =====
-- Concrete sources and a concrete encoder for the tests of the sampler and of its readers.
use vigil_collector.Prelude.{ℕ, refl, none, some, [], ◌∷◌}
use vigil_collector.Text.{codes}
use vigil_collector.Float.Millis.{Millis, millis_float}
use vigil_collector.Snapshot.{Process, default_snapshot, no_io, no_throughput}
use vigil_collector.Sampler.State.{Sources}
use vigil_collector.Sampler.Cache.{Encoder, new_cache}
use vigil_collector.Sampler.Loop.{Shared}
use vigil_collector.Sampler.Safety.{IsTotal}

abbrev pub named_process : ℕ → Process Millis
named_process pid = record { pid = pid; name = codes "p"; username = []; mem = some 1 }

-- The process list names the world of its scan.
abbrev pub sources : Sources Millis ℕ ℕ (Unit {0})
sources = record {
  refresh_counters = λ w s. s;
  refresh_processes = λ w s. w;
  refresh_disks = λ w s. s;
  open_sys = λ w. w;
  core_count = λ s. 4;
  collect_top = λ w s. named_process s ∷ [];
  metric_label = λ w s. codes "rss";
  collect_top_cpu = λ s. [];
  collect_cpu = λ w s cores. record {
    usage = some 1;
    temp = some 0;
    freq = some 0;
    cores = cores;
    load = none;
  };
  collect_mem = λ s. record { total = some 0; used = some 0; free = some 0; percent = some 0 };
  collect_root = λ w s. record { total = some 0; used = some 0; free = some 0; percent = some 0 };
  collect_all = λ w s. [];
  collect_io = λ w p. (no_io, p);
  collect_throughput = λ w s p. (no_throughput, p);
  no_prev = tt;
  platform = λ w. record { distro = []; kernel = []; uptime = [] };
  user = λ w. [];
  interface_names = λ s. [];
  statistics = λ w s. [];
}

abbrev pub encoder : Encoder Millis
encoder = record {
  http_to_vec = λ v. some (codes "h");
  ws_to_vec = λ v. some (codes "w");
  network_to_vec = λ v. some (codes "n");
}

pub encoder-IsTotal : IsTotal encoder
encoder-IsTotal = record {
  http_ok = λ s. (codes "h", refl);
  ws_ok = λ s. (codes "w", refl);
  net_ok = λ s. (codes "n", refl);
}

abbrev pub fresh : Shared Millis
fresh = record { snapshot = default_snapshot; json = new_cache }
