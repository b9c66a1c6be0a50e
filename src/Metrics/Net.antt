-- ===== src/Metrics/Net.antt =====
-- metrics/net.rs: throughput over all interfaces, and the statistics of each. An `Interface` is what
-- sysinfo gives for one; the list is in the order in which its map yields them.
pub mod Rates
pub mod Statistics
mod Tests
use vigil_collector.Prelude.{ℕ, Option, none, some, List, [], ◌∷◌, leb, if◌then◌else◌, length, drop}
use vigil_collector.Float.{Float}
use vigil_collector.Text.{
  Text, codes, text_eq, trim, lines_from, lines, words_from, split_whitespace, split_once_from,
  split_once,
}
use vigil_collector.Text.Number.{saturating_add}
use vigil_collector.BTree.{insert_key}
use vigil_collector.Snapshot.{Throughput, NetIfaceStats, no_throughput}
use vigil_collector.Metrics.Rate.{rate}
use vigil_collector.Metrics.Disk.Counters.{field_number}

pub record Interface : Type 0 where
  pub name : Text
  pub total_received : ℕ
  pub total_transmitted : ℕ
  pub total_packets_received : ℕ
  pub total_packets_transmitted : ℕ
  pub total_errors_on_received : ℕ
  pub total_errors_on_transmitted : ℕ

pub record NetIoPrev : Type 0 where
  pub at : ℕ
  pub recv : ℕ
  pub sent : ℕ

-- The loop over the interfaces, with `recv` and `sent` so far.
unfoldable pub add_interfaces : List Interface → ℕ × ℕ → ℕ × ℕ
unfolding saturating_add text_eq
add_interfaces [] t = t
add_interfaces (d ∷ ds) t = add_interfaces ds (
    if text_eq d.name (codes "lo")
    then t
    else (saturating_add t.0 d.total_received, saturating_add t.1 d.total_transmitted))

module _ {F : Type 0} ⦃f : Float F⦄ where
  unfoldable pub throughput_since : (ℕ → ℕ → F) → NetIoPrev → Option NetIoPrev → Throughput
  unfolding rate
  throughput_since secs new none = no_throughput
  throughput_since secs new (some last) =
      let elapsed = secs last.at new.at in
      if f.le elapsed (f.lit 0 0) then no_throughput else record {
        rx_bytes_per_sec = rate new.recv last.recv elapsed;
        tx_bytes_per_sec = rate new.sent last.sent elapsed;
      }

  -- `secs` is the time between two instants, in seconds.
  unfoldable pub collect_throughput :
      (ℕ → ℕ → F) → List Interface → ℕ → Option NetIoPrev → Throughput × Option NetIoPrev
  unfolding add_interfaces throughput_since
  collect_throughput secs networks now prev =
      let t = add_interfaces networks (0, 0) in
      let new : NetIoPrev = record { at = now; recv = t.0; sent = t.1 } in
      (throughput_since secs new prev, some new)

  unfoldable pub stats_of : Interface → NetIfaceStats F
  stats_of d = record {
    mb_sent = f.div (f.of_u64 d.total_transmitted) (f.mul (f.lit 1024 0) (f.lit 1024 0));
    mb_received = f.div (f.of_u64 d.total_received) (f.mul (f.lit 1024 0) (f.lit 1024 0));
    pk_sent = d.total_packets_transmitted;
    pk_received = d.total_packets_received;
    error_in = d.total_errors_on_received;
    error_out = d.total_errors_on_transmitted;
    dropin = 0;
    dropout = 0;
  }

  unfoldable pub put_interfaces :
      List Interface → List (Text × NetIfaceStats F) → List (Text × NetIfaceStats F)
  unfolding insert_key stats_of
  put_interfaces [] out = out
  put_interfaces (d ∷ ds) out = put_interfaces ds (insert_key d.name (stats_of d) out)

-- One line of `/proc/net/dev`, behind the two of the head.
unfoldable pub drops_of_line : Text → Option (Text × (ℕ × ℕ))
unfolding trim split_once_from words_from field_number
drops_of_line line = elim (split_once b':' line) [
  | none ↦ none
  | some (iface, rest) ↦
      let cols = split_whitespace rest in
      if leb 12 (length cols)
      then some (trim iface, (field_number cols 3, field_number cols 11))
      else none
]

unfoldable pub drops_of_lines : List Text → List (Text × (ℕ × ℕ)) → List (Text × (ℕ × ℕ))
unfolding drops_of_line insert_key
drops_of_lines [] out = out
drops_of_lines (line ∷ more) out = elim (drops_of_line line) [
  | none ↦ drops_of_lines more out
  | some (iface, d) ↦ drops_of_lines more (insert_key iface d out)
]

unfoldable pub read_proc_net_drops : Option Text → Option (List (Text × (ℕ × ℕ)))
unfolding drops_of_lines lines_from
read_proc_net_drops none = none
read_proc_net_drops (some raw) = some (drops_of_lines (drop 2 (lines raw)) [])

-- `if let Some(s) = out.get_mut(&name) { … }`.
unfoldable pub set_drops :
    {F : Type 0} → Text → ℕ × ℕ → List (Text × NetIfaceStats F) → List (Text × NetIfaceStats F)
unfolding text_eq
set_drops name d [] = []
set_drops name d ((j, s) ∷ m) =
    let later = (j, s) ∷ set_drops name d m in
    if text_eq j name then (j, record s { dropin = d.0; dropout = d.1 }) ∷ m else later

unfoldable pub put_drops :
    {F : Type 0}
    → List (Text × (ℕ × ℕ))
    → List (Text × NetIfaceStats F)
    → List (Text × NetIfaceStats F)
unfolding set_drops
put_drops [] out = out
put_drops ((name, d) ∷ drops) out = put_drops drops (set_drops name d out)

-- `net_dev` is the text of `/proc/net/dev`, if it can be read.
unfoldable pub statistics :
    {F : Type 0} ⦃f : Float F⦄ → List Interface → Option Text → List (Text × NetIfaceStats F)
unfolding put_interfaces put_drops read_proc_net_drops
statistics networks net_dev =
    let out = put_interfaces networks [] in
    elim (read_proc_net_drops net_dev) [ none ↦ out | some drops ↦ put_drops drops out ]

-- The names, in the order of the map.
unfoldable pub interface_names : List Interface → List Text
interface_names [] = []
interface_names (d ∷ ds) = d.name ∷ interface_names ds
