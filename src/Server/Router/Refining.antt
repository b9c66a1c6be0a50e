-- ===== src/Server/Router/Refining.antt =====
-- server/mod.rs over server/ws.rs and server/worker.rs: a server that answers requests is a run of the
-- events of its sessions and tokens.
use vigil_collector.Prelude.{
  ℕ, suc, ◌+◌, ◌≤◌, ◌≡◌, refl, sym, ap, ◌∙◌, subst, Bool, true, false, Option, none, some, List, [],
  ◌∷◌, ◌++◌, arith, if◌then◌else◌, length,
}
use vigil_collector.Text.{Text, codes, text_eq}
use vigil_collector.Text.Laws.{text_eq_iff}
use vigil_collector.Sampler.Cache.{CachedJson}
use vigil_collector.Server.Worker.{new_registry}
use vigil_collector.Server.Ws.{
  Event, Server, Admission, bad_request, forbidden, service_unavailable, upgrade, AppState, issues,
  expires, connects, starts, drops, ends, admitted, connect, run, new_server,
}
use vigil_collector.Server.Ws.Backing.{issue_count, sessions-le-issues}
use vigil_collector.Server.Router.{
  Method, get, head, post, options, other, Handler, index, favicon, new_worker, get_system,
  get_network, probes, preflight, ws_connect, Request, handle, reply_of,
}
use vigil_collector.Server.Router.Effects.{IsRouting, worker_path}
use vigil_collector.Server.Router.Serving.{
  Live, Input, asked, expired, session_starts, session_lost, session_ends, stored, answered,
  dispatch, take_input, serve_all,
}

-- What a handler does to the tokens and the sessions.
abbrev handler_events : Option Handler → Request → List Event
handler_events (some new_worker) q = issues q.now q.fresh_id ∷ []
handler_events (some ws_connect) q = connects q.id ∷ []
handler_events (some index) q = []
handler_events (some favicon) q = []
handler_events (some get_system) q = []
handler_events (some get_network) q = []
handler_events (some probes) q = []
handler_events (some preflight) q = []
handler_events none q = []

abbrev pub is_post_worker : Method → Text → Bool
is_post_worker post p = text_eq p (codes "/worker")
is_post_worker get p = false
is_post_worker head p = false
is_post_worker options p = false
is_post_worker (other t) p = false

-- How many of the inputs are POST requests of /worker.
abbrev pub posts : List Input → ℕ
posts [] = 0
posts (asked m p q ∷ is) = if is_post_worker m p then suc (posts is) else posts is
posts (expired now id ∷ is) = posts is
posts (session_starts ∷ is) = posts is
posts (session_lost ∷ is) = posts is
posts (session_ends ∷ is) = posts is
posts (stored json ∷ is) = posts is

answered-admitted :
    (l : Live) (a : Admission) (app : AppState)
    → (answered l (reply_of a, record { json = l.json; ws = app })).server
      ≡ admitted l.server (a, app)
unfolding answered reply_of admitted
answered-admitted l bad_request app = refl
answered-admitted l forbidden app = refl
answered-admitted l service_unavailable app = refl
answered-admitted l upgrade app = refl

issue_count-append :
    (es more : List Event) → issue_count (es ++ more) ≡ issue_count es + issue_count more
issue_count-append [] more = omega arith
issue_count-append (e ∷ es) more = ground (arith, issue_count-append es more)

post-is_post_worker :
    (m : Method) (p : Text) → m ≡ post → p ≡ codes "/worker" → is_post_worker m p ≡ true
post-is_post_worker post p hm hp = (text_eq_iff p (codes "/worker")).1 hp
post-is_post_worker get p hm hp = absurd (cc)
post-is_post_worker head p hm hp = absurd (cc)
post-is_post_worker options p hm hp = absurd (cc)
post-is_post_worker (other t) p hm hp = absurd (cc)

module _ (route : Method → Text → Option Handler) where
  abbrev pub events : List Input → List Event
  events [] = []
  events (asked m p q ∷ is) = handler_events (route m p) q ++ events is
  events (expired now id ∷ is) = expires now id ∷ events is
  events (session_starts ∷ is) = starts ∷ events is
  events (session_lost ∷ is) = drops ∷ events is
  events (session_ends ∷ is) = ends ∷ events is
  events (stored json ∷ is) = events is

  dispatch-run :
      (h : Option Handler) (q : Request) (l : Live) (es : List Event)
      → run (dispatch h q l).server es ≡ run l.server (handler_events h q ++ es)
  unfolding dispatch handle answered run
  dispatch-run none q l es = refl
  dispatch-run (some index) q l es = refl
  dispatch-run (some favicon) q l es = refl
  dispatch-run (some new_worker) q l es = refl
  dispatch-run (some get_system) q l es = refl
  dispatch-run (some get_network) q l es = refl
  dispatch-run (some probes) q l es = refl
  dispatch-run (some preflight) q l es = refl
  dispatch-run (some ws_connect) q l es =
      ap (λ s. run s es)
        (answered-admitted l (connect q.id l.server.app).0 (connect q.id l.server.app).1)

  -- Whatever requests come, and however they are routed, the tokens and the sessions of the server are
  -- those of the run of the events that the requests and the runtime make, in their order.
  serve_all-run :
      (l : Live) (is : List Input) → (serve_all route l is).server ≡ run l.server (events is)
  unfolding serve_all take_input run
  serve_all-run l [] = refl
  serve_all-run l (asked m p q ∷ is) =
      serve_all-run (dispatch (route m p) q l) is ∙ dispatch-run (route m p) q l (events is)
  serve_all-run l (expired now id ∷ is) = serve_all-run (take_input route l (expired now id)) is
  serve_all-run l (session_starts ∷ is) = serve_all-run (take_input route l session_starts) is
  serve_all-run l (session_lost ∷ is) = serve_all-run (take_input route l session_lost) is
  serve_all-run l (session_ends ∷ is) = serve_all-run (take_input route l session_ends) is
  serve_all-run l (stored json ∷ is) = serve_all-run (take_input route l (stored json)) is

  -- A request issues a token only where it is a POST of /worker.
  handler_events-le :
      IsRouting route
      → (m : Method) (p : Text) (q : Request) (h : Option Handler) → route m p ≡ h
      → issue_count (handler_events h q) ≤ (if is_post_worker m p then 1 else 0)
  handler_events-le routing m p q none e = omega arith
  handler_events-le routing m p q (some index) e = omega arith
  handler_events-le routing m p q (some favicon) e = omega arith
  handler_events-le routing m p q (some new_worker) e =
      let (is_post, path) = worker_path m p (routing m p new_worker e) in
      rw (post-is_post_worker m p is_post path) (omega arith)
  handler_events-le routing m p q (some get_system) e = omega arith
  handler_events-le routing m p q (some get_network) e = omega arith
  handler_events-le routing m p q (some probes) e = omega arith
  handler_events-le routing m p q (some preflight) e = omega arith
  handler_events-le routing m p q (some ws_connect) e = omega arith

  events-le : IsRouting route → (is : List Input) → issue_count (events is) ≤ posts is
  events-le routing [] = omega arith
  events-le routing (asked m p q ∷ is) = ground (
    arith,
    events-le routing is,
    handler_events-le routing m p q (route m p) refl,
    issue_count-append (handler_events (route m p) q) (events is),
  )
  events-le routing (expired now id ∷ is) = events-le routing is
  events-le routing (session_starts ∷ is) = events-le routing is
  events-le routing (session_lost ∷ is) = events-le routing is
  events-le routing (session_ends ∷ is) = events-le routing is
  events-le routing (stored json ∷ is) = events-le routing is

-- On a server with no tokens at the start, the sessions that run, the upgrades under way and the tokens
-- that wait are together no more than the POST requests of /worker, whatever the other requests are, what
-- they carry, and how they come between the events of the runtime.
pub sessions-le-posts :
    (route : Method → Text → Option Handler) (routing : IsRouting route) (json : CachedJson)
    (max : ℕ) (is : List Input)
    → let s =
        (serve_all route
          (record { json = json; server = new_server new_registry max })
          is).server in
      s.running + s.upgrading + length s.app.workers.inner ≤ posts is
sessions-le-posts route routing json max is =
    let l : Live = record { json = json; server = new_server new_registry max } in
    subst (λ (s : Server). s.running + s.upgrading + length s.app.workers.inner ≤ posts is)
      (sym (serve_all-run route l is))
      (omega (arith, sessions-le-issues max (events route is), events-le route routing is))
