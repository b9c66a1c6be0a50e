-- ===== src/Server/Router/Effects.antt =====
-- server/mod.rs: which requests change the state, and what a reader of the sampler's cells gets.
use vigil_collector.Prelude.{◌≡◌, refl, ◌≢◌, ◌⊎◌, Option, some, List, [], ◌∷◌, arith}
use vigil_collector.Text.{Text, codes}
use vigil_collector.Snapshot.{http_view, network_view}
use vigil_collector.Sampler.State.{Sources}
use vigil_collector.Sampler.Cache.{Encoder}
use vigil_collector.Sampler.Loop.{Shared, Round, rounds, start}
use vigil_collector.Sampler.Safety.{IsTotal, started-IsSound}
use vigil_collector.Server.Http.{raw_json}
use vigil_collector.Server.Router.{
  Method, get, head, post, Handler, index, favicon, new_worker, get_system, get_network, probes,
  preflight, ws_connect, routes, App, Request, response, handle,
}

-- The handlers of a method in a row of the table; a GET handler also answers HEAD.
abbrev pub Offers : List (Method × Handler) → Method → Handler → Type 0
Offers [] m h = ⊥
Offers ((n, k) ∷ more) m h = ((h ≡ k) × ((m ≡ n) ⊎ ((n ≡ get) × (m ≡ head)))) ⊎ Offers more m h

-- The table lists the handler for the method and the path.
abbrev pub Lists : List (Text × List (Method × Handler)) → Method → Text → Handler → Type 0
Lists [] m p h = ⊥
Lists ((path, row) ∷ more) m p h = ((p ≡ path) × Offers row m h) ⊎ Lists more m p h

-- axum calls only a handler that the table lists.
abbrev pub IsRouting : (Method → Text → Option Handler) → Type 0
IsRouting route = (m : Method) (p : Text) (h : Handler) → route m p ≡ some h → Lists routes m p h

pub worker_path :
    (m : Method) (p : Text) → Lists routes m p new_worker → (m ≡ post) × (p ≡ codes "/worker")
worker_path m p l = ground arith

connect_path : (m : Method) (p : Text) → Lists routes m p ws_connect → p ≡ codes "/connect"
connect_path m p l = ground arith

-- A request that is neither a POST of /worker nor for /connect leaves the registry, the count of sessions and
-- the cells as they are, whatever it carries.
handle-keeps :
    (route : Method → Text → Option Handler) (routing : IsRouting route) (m : Method) (p : Text)
    (h : Handler) (q : Request) (a : App)
    → route m p ≡ some h
    → ¬ ((m ≡ post) × (p ≡ codes "/worker"))
    → p ≢ codes "/connect"
    → (handle h q a).1 ≡ a
unfolding handle
handle-keeps route routing m p index q a e nw nc = refl
handle-keeps route routing m p favicon q a e nw nc = refl
handle-keeps route routing m p new_worker q a e nw nc =
    absurd (nw (worker_path m p (routing m p new_worker e)))
handle-keeps route routing m p get_system q a e nw nc = refl
handle-keeps route routing m p get_network q a e nw nc = refl
handle-keeps route routing m p probes q a e nw nc = refl
handle-keeps route routing m p preflight q a e nw nc = refl
handle-keeps route routing m p ws_connect q a e nw nc =
    absurd (nc (connect_path m p (routing m p ws_connect e)))

module _ {F Sys W Prev : Type 0} (src : Sources F Sys W Prev) (enc : Encoder F) where
  -- If serde can write every snapshot, then after any rounds of a started sampler /system and /network
  -- answer with the encodings of the views of one and the same snapshot, that of the sampler's slot.
  pub views_agree :
      (total : IsTotal enc) (w : W) (sh : Shared F) (rs : List (Round W)) (q : Request) (a : App)
      → let t = rounds src enc rs (start src enc w sh) in
        let app = record a { json = t.shared.json } in
        (b : Text) × (c : Text) × (enc.http_to_vec (http_view t.shared.snapshot) ≡ some b)
        × (enc.network_to_vec (network_view t.shared.snapshot) ≡ some c)
        × ((handle get_system q app).0 ≡ response (raw_json b))
        × ((handle get_network q app).0 ≡ response (raw_json c))
  unfolding handle
  views_agree total w sh rs q a =
      let s = started-IsSound src enc total w sh rs in (_, _, s.agree.http, s.agree.net, refl, refl)
