-- ===== src/Server/Probes.antt =====
-- server/probes.rs: one pass over the configured probes. reqwest is a parameter: whether the client can be
-- built, and what a request answers. The tasks of `join_all` share nothing, so the pass is one list.
pub mod Results
mod Tests
use vigil_collector.Prelude.{
  ℕ, ◌%◌, ◌^◌, Bool, false, ◌&&◌, Option, none, some, List, ◌++◌, map, ltb, leb, ◌==◌,
  if◌then◌else◌,
}
use vigil_collector.Float.{Float}
use vigil_collector.Text.{Text, codes}
use vigil_collector.Config.{Probe, Settings}

pub record ProbeResult : Type 0 where
  pub name : Text
  pub url : Text
  pub ok : Bool
  pub status_code : Option ℕ
  pub latency_ms : ℕ
  pub error : Option Text

pub data Method : Type 0 where
  head get : Method

-- What `send` gives: a status code, or an error with the status that it may carry.
pub data Reply : Type 0 where
  answered : ℕ → Reply
  errored : Option ℕ → Text → Reply

-- The world of one pass: the reply to a request of a url, how long a probe takes, in milliseconds, and
-- the error of `build`, if it fails for a timeout.
pub record Client : Type 0 where
  pub send : Method → Text → Reply
  pub elapsed : Text → ℕ
  pub build_error : ℕ → Option Text

-- A HEAD that is denied is tried again as a GET, whose reply is `second`; without that it is not used.
unfoldable pub or_second : Reply → Reply → Reply
or_second second (answered code) = if code == 405 then second else answered code
or_second second (errored status e) = errored status e

unfoldable pub last_reply : (Method → Text → Reply) → Text → Reply
unfolding or_second
last_reply send url = or_second (send get url) (send head url)

unfoldable pub to_result : Text → Text → ℕ → Reply → ProbeResult
to_result name url latency (answered code) = record {
  name = name;
  url = url;
  ok = leb 200 code && ltb code 400;
  status_code = some code;
  latency_ms = latency;
  error = none;
}
to_result name url latency (errored status e) = record {
  name = name;
  url = url;
  ok = false;
  status_code = status;
  latency_ms = latency;
  error = some e;
}

unfoldable pub probe_one : Client → Probe → ProbeResult
unfolding last_reply to_result
probe_one client p =
    to_result p.name p.url (client.elapsed p.url % 2 ^ 64) (last_reply client.send p.url)

-- The result of a probe where no client could be built.
unfoldable pub not_built : Text → Probe → ProbeResult
not_built e p = record {
  name = p.name;
  url = p.url;
  ok = false;
  status_code = none;
  latency_ms = 0;
  error = some (codes "client build failed: " ++ e);
}

-- The probes, once the timeout is known.
unfoldable pub run_with : Client → ℕ → List Probe → List ProbeResult
unfolding probe_one not_built
run_with client timeout probes = elim (client.build_error timeout) [
  | some e ↦ map (not_built e) probes
  | none ↦ map (probe_one client) probes
]

-- `none` is the panic of `from_secs_f64`.
unfoldable pub run : {F : Type 0} ⦃f : Float F⦄ → Client → Settings F → Option (List ProbeResult)
unfolding run_with
run ⦃f⦄ client settings = elim (f.from_secs (f.max settings.probe_timeout (f.lit 1 1))) [
  | none ↦ none
  | some timeout ↦ some (run_with client timeout settings.probes)
]
