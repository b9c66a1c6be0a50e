-- ===== src/Server/Ws/Connecting.antt =====
-- server/ws.rs: what `connect` answers, and what it leaves behind.
use vigil_collector.Prelude.{
  ◌<◌, ◌≡◌, ◌≢◌, ◌↔◌, true, false, not, ◌&&◌, Option, [], ◌∷◌, arith, leb, if◌then◌else◌,
}
use vigil_collector.Text.{Text, text_eq, is_empty}
use vigil_collector.Server.Worker.{holds, remove_id, claim}
use vigil_collector.Server.Worker.Tokens.{holds-remove_id}
use vigil_collector.Server.Ws.{
  AppState, Admission, bad_request, forbidden, service_unavailable, upgrade, or_empty, connect,
}

-- The answer and the state after it, for every request. An empty id is refused and changes nothing; an id
-- that is not in the registry is refused; one that is there is let in exactly when the count of sessions is
-- below the limit. Whatever the answer, the id of a request is gone from the registry, also where the
-- server is full, every other id is there if it was, and the timers, the limit and the count of sessions
-- are as before.
pub connect_cases :
    (q : Option Text) (s : AppState) (j : Text)
    → let id = or_empty q in
      let r = connect q s in
      (r.0 ≡ bad_request ↔ id ≡ [])
      × (r.0 ≡ forbidden ↔ (id ≢ []) × (holds id s.workers.inner ≡ false))
      × (r.0 ≡ upgrade
          ↔ (id ≢ []) × (holds id s.workers.inner ≡ true) × (s.active_ws < s.max_ws_connections))
      × (holds j r.1.workers.inner
          ≡ (not (not (is_empty id) && text_eq id j) && holds j s.workers.inner))
      × (r.1.workers.timers ≡ s.workers.timers)
      × (r.1.max_ws_connections ≡ s.max_ws_connections)
      × (r.1.active_ws ≡ s.active_ws)
unfolding connect claim
connect_cases q s j = cases (or_empty q)
  where
    cases :
        (id : Text)
        → let s' = record s {
          workers = record s.workers { inner = remove_id id s.workers.inner };
        } in
          let r : Admission × AppState =
            if is_empty id
            then (bad_request, s)
            else if not (holds id s.workers.inner)
            then (forbidden, s')
            else if leb s'.max_ws_connections s'.active_ws
            then (service_unavailable, s')
            else (upgrade, s') in
          (r.0 ≡ bad_request ↔ id ≡ [])
          × (r.0 ≡ forbidden ↔ (id ≢ []) × (holds id s.workers.inner ≡ false))
          × (r.0 ≡ upgrade
              ↔ (id ≢ [])
                × (holds id s.workers.inner ≡ true)
                × (s.active_ws < s.max_ws_connections))
          × (holds j r.1.workers.inner
              ≡ (not (not (is_empty id) && text_eq id j) && holds j s.workers.inner))
          × (r.1.workers.timers ≡ s.workers.timers)
          × (r.1.max_ws_connections ≡ s.max_ws_connections)
          × (r.1.active_ws ≡ s.active_ws)
    cases [] = ground arith
    cases (c ∷ id) = ground (arith, holds-remove_id j (c ∷ id) s.workers.inner)
