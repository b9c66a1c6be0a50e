-- ===== src/Main/Tests.antt =====
-- The options and the start at concrete arguments.
use vigil_collector.Prelude.{ℕ, ◌≡◌, refl, Bool, true, false, none, some, List, [], ◌∷◌}
use vigil_collector.Text.{codes, is_whitespace, join}
use vigil_collector.Float.Millis.{Millis, millis_float}
use vigil_collector.Config.{Settings, default_settings}
use vigil_collector.Main.{Cli, parse_tags, Resolver, serving, panicked, start}
use vigil_collector.Main.Tags.{Entry, tag, blank, parse_tags-join}
use vigil_collector.Hub.Client.Connection.{Machine}
use vigil_collector.Main.Lifecycle.{main}
use vigil_collector.Main.Stopping.{IsQuiet, main-IsQuiet}
use vigil_collector.Target.{linux}
use vigil_collector.Main.Signals.{interrupt, terminate, wait_for_signal}

abbrev args : Cli
args = record {
  address = [];
  port = 0;
  hub = some (codes "ws://hub");
  hub_key = some (codes "k");
  hub_name = none;
  hub_tags = some (codes " web,, db ");
}

two_tags : parse_tags args ≡ codes "web" ∷ codes "db" ∷ []
unfolding parse_tags
two_tags = refl

-- Addresses are pairs of a number and a port; the resolver knows no names.
abbrev resolver : Resolver ℕ (ℕ × ℕ)
resolver = record {
  localhost = 1;
  parse_ip = λ host. none;
  socket_addr = λ ip port. (ip, port);
  to_socket_addrs = λ host port. none;
}

abbrev always : {A : Type 0} → A → Bool
always x = true

abbrev settings : Settings Millis
settings = default_settings

-- A negative probe timeout, here the value that is no number, ends the start in a panic.
no_start_on_bad_timeout :
    start resolver always always args (record settings { probe_timeout = none }) ≡ panicked
unfolding start default_settings
no_start_on_bad_timeout = refl

starts_on_defaults :
    start resolver always always args settings
    ≡ serving (1, 4500) (some (codes "ws://hub", codes "k"))
unfolding start default_settings
starts_on_defaults = refl

abbrev entries : List Entry
entries =
    tag (codes " ") (codes "web") [] ∷ blank (codes "  ") ∷ tag [] (codes "db 2") (codes " ") ∷ []

parse_tags-join_example :
    parse_tags (record args { hub_tags = some (codes " web,  ,db 2 ") })
    ≡ codes "web" ∷ codes "db 2" ∷ []
unfolding is_whitespace join
parse_tags-join_example = parse_tags-join args entries (
  ((refl, tt), tt, refl, refl, (refl, (refl, (refl, tt)))),
  ((refl, (refl, tt)), ((tt, (refl, tt), refl, refl, (refl, (refl, (refl, (refl, tt))))), tt)),
)

abbrev machine : Machine
machine = record { hostname = none; os = codes "linux"; arch = codes "arm"; cpu_cores = none }

-- The listener does not bind: the start has spawned two tasks, and both are stopped.
abbrev never : {A : Type 0} → A → Bool
never x = false

main-IsQuiet_example : IsQuiet (main resolver always never machine true none args settings).1
unfolding main default_settings
main-IsQuiet_example = main-IsQuiet resolver always never machine true none args settings (λ e. cc)

-- Without a handler for SIGTERM only an interrupt ends the wait.
interrupt_ends :
    wait_for_signal linux false false (terminate ∷ interrupt ∷ terminate ∷ [])
    ≡ some (terminate ∷ [])
unfolding wait_for_signal
interrupt_ends = refl

terminate_ends :
    wait_for_signal linux false true (terminate ∷ interrupt ∷ []) ≡ some (interrupt ∷ [])
unfolding wait_for_signal
terminate_ends = refl
