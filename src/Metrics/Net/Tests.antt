-- ===== src/Metrics/Net/Tests.antt =====
-- Runs of the net collector, and its theorems at concrete interfaces.
use vigil_collector.Prelude.{ℕ, ◌-◌, ◌*◌, ◌≡◌, refl, none, some, List, [], ◌∷◌}
use vigil_collector.Text.{Text, codes}
use mathlib.Core.List.{Permᴰ}
use vigil_collector.Float.Millis.{Millis, millis_float}
use vigil_collector.Metrics.Disk.Laws.{cap}
use vigil_collector.Metrics.Net.{Interface, collect_throughput, drops_of_line}
use vigil_collector.Metrics.Net.Rates.{sum_over, received, transmitted, collect_throughput-perm}

abbrev interface_of : Text → ℕ → Interface
interface_of name n = record {
  name = name;
  total_received = n;
  total_transmitted = 2 * n;
  total_packets_received = 3;
  total_packets_transmitted = 4;
  total_errors_on_received = 0;
  total_errors_on_transmitted = 0;
}

abbrev eth : Interface
eth = interface_of (codes "eth0") 100

abbrev lo : Interface
lo = interface_of (codes "lo") 7

abbrev interfaces : List Interface
interfaces = lo ∷ eth ∷ []

abbrev net_dev_line : Text
net_dev_line = codes "  eth0: 1 2 3 44 5 6 7 8 9 10 11 55 13 14 15 16"

line_is_read : drops_of_line net_dev_line ≡ some (codes "eth0", (44, 55))
unfolding drops_of_line
line_is_read = refl

abbrev secs : ℕ → ℕ → Millis
secs a b = some ((b - a) * 1000)

collect_throughput-perm_example :
    (collect_throughput secs interfaces 9 none ≡ collect_throughput secs (eth ∷ lo ∷ []) 9 none)
    × ((collect_throughput secs interfaces 9 none).1
        ≡ some (record {
          at = 9;
          recv = cap (sum_over received interfaces);
          sent = cap (sum_over transmitted interfaces);
        }))
collect_throughput-perm_example =
    collect_throughput-perm secs interfaces (eth ∷ lo ∷ []) (Permᴰ.swap refl refl) 9 none
