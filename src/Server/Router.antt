-- ===== src/Server/Router.antt =====
-- server/mod.rs: the table of `router`, and the handlers behind it as one function on the state. axum
-- chooses the route; what its documentation says of the choice is `IsRouting`.
pub mod Effects
pub mod Serving
pub mod Refining
mod Tests
use vigil_collector.Prelude.{ℕ, Option, List, [], ◌∷◌}
use vigil_collector.Text.{Text, codes}
use vigil_collector.Sampler.Cache.{CachedJson}
use vigil_collector.Server.Ws.{
  AppState, Admission, bad_request, forbidden, service_unavailable, upgrade, connect,
}
use vigil_collector.Server.Http.{
  Response, plain, WorkerResponse, Encoded, json_response, serve_index, serve_favicon,
  create_worker, system, network,
}

pub data Method : Type 0 where
  get head post options : Method
  other : Text → Method

pub data Handler : Type 0 where
  index favicon new_worker get_system get_network probes preflight ws_connect : Handler

abbrev pub routes : List (Text × List (Method × Handler))
routes =
    (codes "/", (get, index) ∷ [])
    ∷ (codes "/favicon.ico", (get, favicon) ∷ [])
    ∷ (codes "/worker", (post, new_worker) ∷ (options, preflight) ∷ [])
    ∷ (codes "/system", (get, get_system) ∷ (options, preflight) ∷ [])
    ∷ (codes "/network", (get, get_network) ∷ (options, preflight) ∷ [])
    ∷ (codes "/probes", (get, probes) ∷ (options, preflight) ∷ [])
    ∷ (codes "/connect", (get, ws_connect) ∷ [])
    ∷ []

-- `AppState`: the cells of the sampler, the registry and the count of sessions.
pub record App : Type 0 where
  pub json : CachedJson
  pub ws : AppState

-- What the world answers in a request: the embedded assets, serde on an answer, a fresh id, the time, the
-- header `Host`, the query's `id`, and the encoded result of a pass over the probes.
pub record Request : Type 0 where
  pub index_asset : Option (Text × Text)
  pub favicon_asset : Option (Text × Text)
  pub to_vec : WorkerResponse → Encoded
  pub fresh_id : Text
  pub now : ℕ
  pub host : Option Text
  pub id : Option Text
  pub probes : Encoded

-- A response, or the upgrade of the connection to a WebSocket.
pub data Reply : Type 0 where
  response : Response → Reply
  upgraded : Reply

unfoldable pub reply_of : Admission → Reply
reply_of bad_request = response (plain 400 (codes "missing worker id"))
reply_of forbidden = response (plain 403 (codes "Invalid worker id"))
reply_of service_unavailable =
    response (plain 503 (codes "Server is at full capacity. Please try again later."))
reply_of upgrade = upgraded

unfoldable pub handle : Handler → Request → App → Reply × App
unfolding serve_index serve_favicon create_worker system network json_response connect reply_of
handle index q a = (response (serve_index q.index_asset), a)
handle favicon q a = (response (serve_favicon q.favicon_asset), a)
handle new_worker q a =
    let r = create_worker q.to_vec q.fresh_id q.now q.host a.ws.workers in
    (response r.0, record a { ws = record a.ws { workers = r.1 } })
handle get_system q a = (response (system a.json), a)
handle get_network q a = (response (network a.json), a)
handle probes q a = (response (json_response q.probes), a)
handle preflight q a = (response (plain 204 []), a)
handle ws_connect q a = let r = connect q.id a.ws in (reply_of r.0, record a { ws = r.1 })
