-- ===== src/Metrics/Processor/Tests.antt =====
-- Temperatures of concrete sensors.
use vigil_collector.Prelude.{◌*◌, ◌≡◌, refl, true, none, some, List, [], ◌∷◌}
use vigil_collector.Text.{codes}
use Prim.Native.String.{String}
use vigil_collector.Float.Millis.{Millis, millis_float}
use vigil_collector.Metrics.Processor.{
  Component, Zone, read_via_components, read_via_thermal_zones, parse_i64,
}

abbrev sensor : String → Millis → Component Millis
sensor label t = record { label = codes label; temperature = t }

abbrev sensors : List (Component Millis)
sensors = sensor "nvme" (some 31000) ∷ sensor "Tctl" none ∷ sensor "CPU Package" (some 52340) ∷ []

package_wins : read_via_components sensors ≡ some (some 52300)
unfolding read_via_components
package_wins = refl

abbrev zone : Zone
zone = record {
  name = codes "thermal_zone0";
  type_file = some (codes "cpu-thermal\n");
  temp_file = some (codes "48250\n");
}

zone_is_read :
    read_via_thermal_zones (λ m. some (m.1 * 1000)) (some (zone ∷ [])) ≡ some (some 48300)
unfolding read_via_thermal_zones
zone_is_read = refl

below_zero : parse_i64 (codes "-12") ≡ some (true, 12)
unfolding parse_i64
below_zero = refl
