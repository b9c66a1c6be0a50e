-- ===== src/Server/Router/Serving.antt =====
-- server/mod.rs: the handlers of the table at work. Requests and the events of the runtime (the expiry of
-- a token, the start, the loss and the end of an upgraded session, a store of the sampler) come in any
-- order; how the runtime comes to that order is not modelled.
use vigil_collector.Prelude.{ℕ, ◌+◌, Option, none, some, List, [], ◌∷◌}
use vigil_collector.Text.{Text}
use vigil_collector.Sampler.Cache.{CachedJson}
use vigil_collector.Server.Ws.{Server, expires, starts, drops, ends, step}
use vigil_collector.Server.Router.{Method, Handler, App, Request, Reply, response, upgraded, handle}

pub record Live : Type 0 where
  pub json : CachedJson
  pub server : Server

-- `route` is axum's choice by the method and the path; no handler of the table is called on `none`.
pub data Input : Type 0 where
  asked : Method → Text → Request → Input
  expired : ℕ → Text → Input
  session_starts session_lost session_ends : Input
  stored : CachedJson → Input

-- The runtime holds the upgrade of an answer that is one.
unfoldable pub answered : Live → Reply × App → Live
answered l (response r, a) = record { json = a.json; server = record l.server { app = a.ws } }
answered l (upgraded, a) = record {
  json = a.json;
  server = record l.server { app = a.ws; upgrading = l.server.upgrading + 1 };
}

unfoldable pub dispatch : Option Handler → Request → Live → Live
unfolding answered handle
dispatch none q l = l
dispatch (some h) q l = answered l (handle h q (record { json = l.json; ws = l.server.app }))

module _ (route : Method → Text → Option Handler) where
  unfoldable pub take_input : Live → Input → Live
  unfolding dispatch step
  take_input l (asked m p q) = dispatch (route m p) q l
  take_input l (expired now id) = record l { server = step l.server (expires now id) }
  take_input l session_starts = record l { server = step l.server starts }
  take_input l session_lost = record l { server = step l.server drops }
  take_input l session_ends = record l { server = step l.server ends }
  take_input l (stored json) = record l { json = json }

  unfoldable pub serve_all : Live → List Input → Live
  unfolding take_input
  serve_all l [] = l
  serve_all l (i ∷ is) = serve_all (take_input l i) is
