-- ===== src/Server/Ws.antt =====
-- server/ws.rs: admission of a WebSocket and the session behind it. The upgrade itself is axum's: it
-- calls `run_session` later, or never, so a request that was let in is first an upgrade under way.
pub mod Connecting
pub mod Sessions
pub mod Frames
pub mod Backing
pub mod Feed
mod Tests
use vigil_collector.Prelude.{
  ℕ, ◌+◌, ◌-◌, ◌%◌, ◌^◌, not, Option, none, some, List, [], ◌∷◌, leb, ◌==◌, if◌then◌else◌,
}
use vigil_collector.Text.{Text, codes, is_empty}
use vigil_collector.Server.Worker.{WorkerRegistry, claim, issue, expire}

-- The fields of `AppState` that the handler uses; `active_ws` is an `AtomicUsize` of 64 bits.
pub record AppState : Type 0 where
  pub workers : WorkerRegistry
  pub max_ws_connections : ℕ
  pub active_ws : ℕ

pub data Admission : Type 0 where
  bad_request forbidden service_unavailable upgrade : Admission

-- `q.id.unwrap_or_default()`.
unfoldable pub or_empty : Option Text → Text
or_empty none = []
or_empty (some id) = id

unfoldable pub connect : Option Text → AppState → Admission × AppState
unfolding or_empty claim
connect q s =
    let id = or_empty q in
    let claimed = claim id s.workers in
    let s' = record s { workers = claimed.1 } in
    if is_empty id
    then (bad_request, s)
    else if not claimed.0
    then (forbidden, s')
    else if leb s'.max_ws_connections s'.active_ws
    then (service_unavailable, s')
    else (upgrade, s')

-- The two ends of `run_session`: `fetch_add` and `fetch_sub` wrap around.
unfoldable pub session_start : AppState → AppState
session_start s = record s { active_ws = (s.active_ws + 1) % 2 ^ 64 }

unfoldable pub session_end : AppState → AppState
session_end s = record s { active_ws = (s.active_ws + 2 ^ 64 - 1) % 2 ^ 64 }

-- The server with the sessions that the runtime holds for it.
pub record Server : Type 0 where
  pub app : AppState
  pub upgrading : ℕ
  pub running : ℕ

pub data Event : Type 0 where
  issues : ℕ → Text → Event
  expires : ℕ → Text → Event
  connects : Option Text → Event
  -- An upgrade completes, or its client goes away before.
  starts drops : Event
  ends : Event

unfoldable pub admitted : Server → Admission × AppState → Server
admitted s (upgrade, app) = record s { app = app; upgrading = s.upgrading + 1 }
admitted s (bad_request, app) = record s { app = app }
admitted s (forbidden, app) = record s { app = app }
admitted s (service_unavailable, app) = record s { app = app }

unfoldable pub step : Server → Event → Server
unfolding admitted connect session_start session_end issue expire
step s (issues now id) = record s { app = record s.app { workers = issue id now s.app.workers } }
step s (expires now id) = record s { app = record s.app { workers = expire id now s.app.workers } }
step s (connects q) = admitted s (connect q s.app)
step s starts =
    if s.upgrading == 0
    then s
    else record { app = session_start s.app; upgrading = s.upgrading - 1; running = s.running + 1 }
step s drops = record s { upgrading = s.upgrading - 1 }
step s ends =
    if s.running == 0 then s else record s { app = session_end s.app; running = s.running - 1 }

unfoldable pub run : Server → List Event → Server
unfolding step
run s [] = s
run s (e ∷ es) = run (step s e) es

-- `serve` of server/mod.rs: no session yet.
unfoldable pub new_server : WorkerRegistry → ℕ → Server
new_server workers max = record {
  app = record { workers = workers; max_ws_connections = max; active_ws = 0 };
  upgrading = 0;
  running = 0;
}

-- What `socket.recv()` gives.
pub data Incoming : Type 0 where
  close closed message : Incoming
  failure : Text → Incoming

pub data Ended : Type 0 where
  ended_ok : Ended
  ended_err : Text → Ended

-- One round of `push_loop`, as the world answers it: what `ws_system` holds, if it is UTF-8, the error
-- of `send`, if it fails, and what arrives before the sleep is over.
pub record Round : Type 0 where
  pub ws_system : Option Text
  pub send_error : Option Text
  pub incoming : List Incoming

-- The inner loop: `none` when the sleep is over first.
unfoldable pub drain : List Incoming → Option Ended
drain [] = none
drain (close ∷ more) = some ended_ok
drain (closed ∷ more) = some ended_ok
drain (message ∷ more) = drain more
drain (failure e ∷ more) = some (ended_err e)

-- The frames that the client gets, and how the loop ended, if it did in these rounds.
unfoldable pub push_loop : List Round → List Text × Option Ended
unfolding drain
push_loop [] = ([], none)
push_loop (r ∷ rs) =
    let later = push_loop rs in
    elim r.ws_system [
      | none ↦ ([], some (ended_err (codes "invalid utf-8")))
      | some s ↦ elim r.send_error [
        | some e ↦ ([], some (ended_err e))
        | none ↦ elim (drain r.incoming) [
          | some end ↦ (s ∷ [], some end)
          | none ↦ (s ∷ later.0, later.1)
        ]
      ]
    ]
