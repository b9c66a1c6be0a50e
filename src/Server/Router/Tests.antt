-- ===== src/Server/Router/Tests.antt =====
-- Requests at a concrete server: a choice among three of the routes, and the sampler of Sampler/Example.
use vigil_collector.Prelude.{
  ◌+◌, ◌≤◌, ◌≡◌, refl, ◌⊎◌, inl, inr, true, false, Option, none, some, List, [], ◌∷◌, if◌then◌else◌,
  Bool-cases, length,
}
use vigil_collector.Text.{Text, codes, text_eq}
use vigil_collector.Text.Laws.{text_eq_iff}
use vigil_collector.Snapshot.{http_view, network_view}
use vigil_collector.Sampler.Cache.{new_cache}
use vigil_collector.Sampler.Example.{sources, encoder, encoder-IsTotal, fresh}
use vigil_collector.Sampler.Loop.{ticked, failed, rounds, start}
use vigil_collector.Server.Http.{bytes, raw_json}
use vigil_collector.Server.Worker.{new_registry}
use vigil_collector.Server.Router.{
  Method, get, head, post, options, other, Handler, new_worker, ws_connect, get_system, get_network,
  App, Request, response, handle,
}
use vigil_collector.Server.Ws.{new_server}
use vigil_collector.Server.Router.Serving.{Live, Input, asked, session_starts, serve_all}
use vigil_collector.Server.Router.Refining.{posts, sessions-le-posts}
use vigil_collector.Server.Router.Effects.{IsRouting, views_agree}

abbrev route : Method → Text → Option Handler
route get p =
    if text_eq p (codes "/system")
    then some get_system
    else if text_eq p (codes "/connect")
    then some ws_connect
    else none
route post p = if text_eq p (codes "/worker") then some new_worker else none
route head p = none
route options p = none
route (other t) p = none

picked :
    (p path : Text) (h k : Handler) (rest : Option Handler)
    → (if text_eq p path then some k else rest) ≡ some h
    → ((p ≡ path) × (h ≡ k)) ⊎ (rest ≡ some h)
picked p path h k rest e = elim (Bool-cases (text_eq p path)) [
  | inl t ↦ inl ((text_eq_iff p path).0 t, found t)
  | inr n ↦ inr (left n)
]
  where
    found : text_eq p path ≡ true → h ≡ k
    found t = cc

    left : text_eq p path ≡ false → rest ≡ some h
    left n = cc

route-IsRouting : IsRouting route
route-IsRouting get p h e = elim (picked p (codes "/system") h get_system _ e) [
  | inl (path, k) ↦ inr (inr (inr (inl (path, inl (k, inl refl)))))
  | inr e' ↦ elim (picked p (codes "/connect") h ws_connect _ e') [
    | inl (path, k) ↦ inr (inr (inr (inr (inr (inr (inl (path, inl (k, inl refl))))))))
    | inr e'' ↦ absurd (cc)
  ]
]
route-IsRouting post p h e = elim (picked p (codes "/worker") h new_worker _ e) [
  | inl (path, k) ↦ inr (inr (inl (path, inl (k, inl refl))))
  | inr e' ↦ absurd (cc)
]
route-IsRouting head p h e = absurd (cc)
route-IsRouting options p h e = absurd (cc)
route-IsRouting (other t) p h e = absurd (cc)

abbrev app : App
app = record {
  json = new_cache;
  ws = record { workers = new_registry; max_ws_connections = 2; active_ws = 1 };
}

abbrev request : Request
request = record {
  index_asset = none;
  favicon_asset = none;
  to_vec = λ w. bytes w.message;
  fresh_id = codes "tok";
  now = 0;
  host = none;
  id = none;
  probes = bytes (codes "[]");
}

views_agree_example :
    let t =
      rounds sources encoder
        (ticked 3 ∷ failed 4 ∷ ticked 5 ∷ [])
        (start sources encoder 2 fresh) in
    let served = record app { json = t.shared.json } in
    (b : Text) × (c : Text) × (encoder.http_to_vec (http_view t.shared.snapshot) ≡ some b)
    × (encoder.network_to_vec (network_view t.shared.snapshot) ≡ some c)
    × ((handle get_system request served).0 ≡ response (raw_json b))
    × ((handle get_network request served).0 ≡ response (raw_json c))
views_agree_example =
    views_agree sources encoder encoder-IsTotal 2 fresh (ticked 3 ∷ failed 4 ∷ ticked 5 ∷ [])
      request app

-- A client gets a token, comes in with it, and tries again.
abbrev visits : List Input
visits =
    asked post (codes "/worker") request
    ∷ asked get (codes "/connect") (record request { id = some (codes "tok") })
    ∷ session_starts
    ∷ asked get (codes "/connect") (record request { id = some (codes "tok") })
    ∷ session_starts
    ∷ []

abbrev live : Live
live = record { json = new_cache; server = new_server new_registry 2 }

one_session : (serve_all route live visits).server.running ≡ 1
unfolding serve_all text_eq new_server
one_session = refl

sessions-le-posts_example :
    let s = (serve_all route live visits).server in
    s.running + s.upgrading + length s.app.workers.inner ≤ posts visits
sessions-le-posts_example = sessions-le-posts route route-IsRouting new_cache 2 visits
