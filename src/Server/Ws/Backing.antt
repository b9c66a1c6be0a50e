-- ===== src/Server/Ws/Backing.antt =====
-- server/worker.rs and server/ws.rs together: the sessions that a server runs are backed by tokens.
use vigil_collector.Prelude.{ℕ, suc, ◌+◌, ◌≤◌, ◌<◌, ◌≡◌, true, Option, List, [], ◌∷◌, arith, length}
use vigil_collector.Text.{Text}
use vigil_collector.Text.Laws.{text_eq_comm}
use vigil_collector.Server.Worker.{
  WorkerRegistry, holds, insert_id, remove_id, issue, claim, expire, new_registry,
}
use vigil_collector.Server.Ws.{
  connect, Server, Event, issues, expires, connects, or_empty, starts, drops, ends, admitted, step,
  run, new_server, session_start, session_end,
}

-- How many tokens a history issues.
abbrev pub issue_count : List Event → ℕ
issue_count [] = 0
issue_count (issues now id ∷ es) = suc (issue_count es)
issue_count (expires now id ∷ es) = issue_count es
issue_count (connects q ∷ es) = issue_count es
issue_count (starts ∷ es) = issue_count es
issue_count (drops ∷ es) = issue_count es
issue_count (ends ∷ es) = issue_count es

length-insert_id : (id : Text) (ids : List Text) → length (insert_id id ids) ≤ suc (length ids)
unfolding insert_id
length-insert_id id ids = ground arith

length-remove_id : (id : Text) (ids : List Text) → length (remove_id id ids) ≤ length ids
unfolding remove_id
length-remove_id id [] = omega arith
length-remove_id id (k ∷ ks) = ground (arith, length-remove_id id ks)

length-remove_id_held :
    (id : Text) (ids : List Text) → holds id ids ≡ true → length (remove_id id ids) < length ids
unfolding remove_id holds
length-remove_id_held id [] h = cc
length-remove_id_held id (k ∷ ks) h =
    ground (arith, length-remove_id_held id ks, length-remove_id id ks, text_eq_comm k id)

-- The tokens that wait, and the sessions that are running or under way.
abbrev pub backed : Server → ℕ
backed s = length s.app.workers.inner + s.upgrading + s.running

expire-le :
    (id : Text) (now : ℕ) (r : WorkerRegistry) → length (expire id now r).inner ≤ length r.inner
unfolding expire
expire-le id now r = ground (arith, length-remove_id id r.inner)

-- Only a claimed token is turned into an upgrade.
connect-le : (q : Option Text) (s : Server) → backed (admitted s (connect q s.app)) ≤ backed s
unfolding connect admitted claim
connect-le q s =
    let ids = s.app.workers.inner in
    ground (arith, length-remove_id (or_empty q) ids, length-remove_id_held (or_empty q) ids)

step-le :
    (s : Server) (e : Event) (es : List Event)
    → backed (step s e) + issue_count es ≤ backed s + issue_count (e ∷ es)
unfolding step
step-le s (issues now id) es =
    unfold issue in omega (arith, length-insert_id id s.app.workers.inner)
step-le s (expires now id) es = omega (arith, expire-le id now s.app.workers)
step-le s (connects q) es = omega (arith, connect-le q s)
step-le s starts es = unfold session_start in ground arith
step-le s drops es = omega arith
step-le s ends es = unfold session_end in ground arith

run-le : (s : Server) (es : List Event) → backed (run s es) ≤ backed s + issue_count es
unfolding run
run-le s [] = omega arith
run-le s (e ∷ es) = omega (arith, run-le (step s e) es, step-le s e es)

-- In every history of a server with no tokens at the start, in whatever order requests, upgrades,
-- expiries and ends come, the sessions that run and the upgrades under way are together no more than
-- the tokens issued, less those that still wait to be claimed.
pub sessions-le-issues :
    (max : ℕ) (es : List Event)
    → let s = run (new_server new_registry max) es in
      s.running + s.upgrading + length s.app.workers.inner ≤ issue_count es
unfolding new_server
sessions-le-issues max es = omega (arith, run-le (new_server new_registry max) es)
