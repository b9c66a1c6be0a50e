-- ===== src/Server/Ws/Tests.antt =====
-- Runs of the admission and of a session, and the theorems at concrete inputs.
use vigil_collector.Prelude.{
  ℕ, ◌%◌, ◌^◌, ◌≤◌, ◌<◌, ◌≡◌, refl, ◌≢◌, ◌↔◌, ◌⊎◌, true, false, none, some, List, [], ◌∷◌, ◌++◌,
  map, arith, length, take,
}
use vigil_collector.Text.{Text, codes, text_eq}
use vigil_collector.Server.Worker.{new_registry, holds, issue, claim}
use vigil_collector.Sampler.Example.{sources, encoder, encoder-IsTotal, fresh}
use vigil_collector.Sampler.Loop.{ticked, failed, start}
use vigil_collector.Server.Ws.Feed.{Push, feed, slots, ws_json, push_loop-slots}
use vigil_collector.Server.Ws.{
  AppState, Event, bad_request, forbidden, service_unavailable, upgrade, or_empty, connect, issues,
  connects, starts, run, new_server, close, message, ended_ok, Ended, Round, push_loop,
}
use vigil_collector.Server.Ws.Connecting.{connect_cases}
use vigil_collector.Server.Ws.Sessions.{
  active_ws-eq-running, issues_one, opens, serialised, serial_within_limit, requests, completions,
  limit_overrun,
}

abbrev token : Text
token = codes "t1"

abbrev full : AppState
full = record { workers = issue token 0 new_registry; max_ws_connections = 1; active_ws = 1 }

turned_away : (connect (some token) full).0 ≡ service_unavailable
unfolding connect issue text_eq
turned_away = refl

token_is_gone : (claim token (connect (some token) full).1.workers).0 ≡ false
unfolding connect issue text_eq
token_is_gone = refl

abbrev frame_round : Round
frame_round = record { ws_system = some (codes "{}"); send_error = none; incoming = message ∷ [] }

abbrev last_round : Round
last_round = record {
  ws_system = some (codes "[]");
  send_error = none;
  incoming = message ∷ close ∷ [];
}

two_frames :
    push_loop (frame_round ∷ last_round ∷ frame_round ∷ [])
    ≡ (codes "{}" ∷ codes "[]" ∷ [], some ended_ok)
unfolding push_loop
two_frames = refl

-- The server is full: the token is refused, and gone.
connect_cases_example :
    let r = connect (some token) full in
    (r.0 ≡ bad_request ↔ token ≡ [])
    × (r.0 ≡ forbidden ↔ (token ≢ []) × (holds token full.workers.inner ≡ false))
    × (r.0 ≡ upgrade ↔ (token ≢ []) × (holds token full.workers.inner ≡ true) × (1 < 1))
    × (holds token r.1.workers.inner ≡ false)
    × (r.1.workers.timers ≡ full.workers.timers)
    × (r.1.max_ws_connections ≡ 1)
    × (r.1.active_ws ≡ 1)
unfolding or_empty text_eq
connect_cases_example = connect_cases (some token) full token

active_ws-eq-running_example :
    let s =
      run (new_server new_registry 5) (issues 0 token ∷ connects (some token) ∷ starts ∷ []) in
    s.app.active_ws ≡ s.running % 2 ^ 64
active_ws-eq-running_example =
    active_ws-eq-running new_registry 5 (issues 0 token ∷ connects (some token) ∷ starts ∷ [])

serial_within_limit_example :
    (run
      (new_server new_registry 1)
      (serialised (issues_one 0 token ∷ opens (some token) ∷ []))).running
    ≤ 1
serial_within_limit_example =
    serial_within_limit new_registry 1 (issues_one 0 token ∷ opens (some token) ∷ []) (omega arith)

-- Two sessions under a limit of one.
limit_overrun_example :
    let ids = token ∷ codes "t2" ∷ [] in
    (run (new_server new_registry 1) (requests ids ++ completions ids)).running ≡ 2
limit_overrun_example =
    limit_overrun 1 (token ∷ codes "t2" ∷ []) (omega arith) ((λ e. cc), ((λ e. cc), tt))

-- Two tokens are issued, and one of them starts a session.
abbrev one_session : List Event
one_session = issues 0 token ∷ issues 1 (codes "other") ∷ connects (some token) ∷ starts ∷ []

-- The sampler ticks before the first push and fails before the second, after which the client leaves.
abbrev pushes : List (Push ℕ)
pushes =
    record { before = ticked 3 ∷ []; send_error = none; incoming = message ∷ [] }
    ∷ record { before = failed 4 ∷ []; send_error = none; incoming = message ∷ close ∷ [] }
    ∷ record { before = ticked 5 ∷ []; send_error = none; incoming = [] }
    ∷ []

push_loop-slots_example :
    let t = start sources encoder 2 fresh in
    let (frames, end) = push_loop (feed sources encoder t pushes) in
    (map some frames
      ≡ map (ws_json sources encoder) (take (length frames) (slots sources encoder t pushes)))
    × (((end ≡ none) × (length frames ≡ length pushes))
        ⊎ ((e : Ended) × (end ≡ some e) × (length frames ≤ length pushes)))
push_loop-slots_example = push_loop-slots sources encoder encoder-IsTotal 2 fresh pushes
