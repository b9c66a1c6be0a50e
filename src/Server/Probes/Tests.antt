-- ===== src/Server/Probes/Tests.antt =====
-- Passes over concrete probes.
use vigil_collector.Prelude.{◌≡◌, refl, true, none, [], ◌∷◌, map}
use vigil_collector.Text.{Text}
use vigil_collector.Config.{default_probes}
use vigil_collector.Server.Probes.{Method, head, get, Reply, answered, Client, run_with}
use vigil_collector.Server.Probes.Results.{Pointwise, Reports, run_with-Reports}

-- Every HEAD is denied, and every GET redirects.
abbrev redirecting : Method → Text → Reply
redirecting head url = answered 405
redirecting get url = answered 301

abbrev client : Client
client = record { send = redirecting; elapsed = λ url. 12; build_error = λ timeout. none }

both_up : map (λ r. r.ok) (run_with client 5 default_probes) ≡ true ∷ true ∷ []
unfolding run_with
both_up = refl

run_with-Reports_example :
    Pointwise (Reports client) default_probes (run_with client 5 default_probes)
run_with-Reports_example = run_with-Reports client 5 default_probes refl
