-- ===== src/Metrics/Platform/Tests.antt =====
-- Runs of the platform collector, and its theorem at a concrete time.
use vigil_collector.Prelude.{◌≡◌, refl, none, some, arith}
use vigil_collector.Text.{codes, join}
use vigil_collector.Metrics.Platform.{join_parts, format_uptime, find_distro}
use vigil_collector.Metrics.Platform.Uptime.{shown_parts, parts_of, seconds_of, format_uptime_parts}

a_day_and_more : format_uptime 90061 ≡ codes "1 day, 1 hr, 1 min, 1 sec"
unfolding format_uptime join_parts
a_day_and_more = refl

two_minutes : format_uptime 120 ≡ codes "2 mins"
unfolding format_uptime join_parts
two_minutes = refl

pretty_name_wins :
    find_distro (some (codes "NAME=\"Ubuntu\"\nPRETTY_NAME=\"Ubuntu 24.04\"\n")) none
    ≡ codes "Ubuntu 24.04"
unfolding find_distro
pretty_name_wins = refl

format_uptime_parts_example :
    format_uptime (seconds_of 2 0 5 1) ≡ join (codes ", ") (shown_parts (parts_of 2 0 5 1))
format_uptime_parts_example = format_uptime_parts 2 0 5 1 (omega arith) (omega arith) (omega arith)
