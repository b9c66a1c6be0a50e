-- ===== src/Server/Http/Answers.antt =====
-- server/http.rs and server/ws.rs together: a token that a client was given lets it in, once.
use vigil_collector.Prelude.{
  ℕ, ◌<◌, ◌≡◌, refl, ap, ◌∙◌, true, false, Option, none, some, [], ◌∷◌, ◌++◌, arith, leb, ◌==◌,
  if◌then◌else◌,
}
use vigil_collector.Text.{Text, codes, is_empty}
use vigil_collector.Text.Laws.{text_eq_refl}
use vigil_collector.Server.Worker.{holds, issue, claim}
use vigil_collector.Server.Worker.Tokens.{holds-insert_id, holds-remove_id}
use vigil_collector.Server.Ws.{AppState, forbidden, upgrade, connect}
use vigil_collector.Server.Http.{
  Response, WorkerResponse, Encoded, bytes, raw_json, json_response, worker_response, create_worker,
}

over_limit : (a m : ℕ) → a < m → leb m a ≡ false
over_limit a m h = ground arith

let_in :
    (id : Text) (s : AppState)
    → is_empty id ≡ false
    → holds id s.workers.inner ≡ true
    → s.active_ws < s.max_ws_connections
    → connect (some id) s ≡ (upgrade, record s { workers = (claim id s.workers).1 })
unfolding connect claim
let_in id s named held below = rw (named, held, over_limit _ _ below)

refused :
    (id : Text) (s : AppState)
    → is_empty id ≡ false
    → holds id s.workers.inner ≡ false
    → (connect (some id) s).0 ≡ forbidden
unfolding connect claim
refused id s named gone = rw (named, gone)

-- The url that a client with an id and a header `Host` can connect to.
abbrev pub url_at : Option Text → Option Text → Option Text
url_at none host = none
url_at (some id) none = none
url_at (some id) (some []) = none
url_at (some id) (some (c ∷ host)) =
    some (codes "ws://" ++ (c ∷ host) ++ codes "/connect?id=" ++ id)

url_is : (id : Text) (host : Option Text) → (worker_response id host).url ≡ url_at (some id) host
unfolding worker_response
url_is id none = refl
url_is id (some []) = refl
url_is id (some (c ∷ host)) = refl

-- What a client makes of an answer: it reads the body of a 200, with `from_slice` of its own.
abbrev pub read_answer : (Text → Option WorkerResponse) → Response → Option WorkerResponse
read_answer from_slice r = if r.status == 200 then from_slice r.body else none

answer_of :
    (from_slice : Text → Option WorkerResponse) (b : Text)
    → read_answer from_slice (json_response (bytes b)) ≡ from_slice b
unfolding json_response raw_json
answer_of from_slice b = refl

-- A client that asks for a worker, where serde writes the answer and the client reads what serde has
-- written, is given an id. If it connects with that id, before anything else happens, it is let in if the
-- server is below its limit; a second connection with the same id is refused. The answer names the url of
-- that id at the host of the request, if the request names a host.
pub create_worker-connect :
    (to_vec : WorkerResponse → Encoded) (from_slice : Text → Option WorkerResponse)
    (total : (w : WorkerResponse) → (b : Text) × (to_vec w ≡ bytes b) × (from_slice b ≡ some w))
    (id : Text) (now : ℕ) (host : Option Text) (s : AppState)
    → is_empty id ≡ false
    → s.active_ws < s.max_ws_connections
    → let answer = create_worker to_vec id now host s.workers in
      let created = record s { workers = answer.1 } in
      (w : WorkerResponse) × (read_answer from_slice answer.0 ≡ some w)
      × ((connect w.id created).0 ≡ upgrade)
      × ((connect w.id (connect w.id created).1).0 ≡ forbidden)
      × (w.url ≡ url_at w.id host)
unfolding create_worker issue claim
create_worker-connect to_vec from_slice total id now host s named below = (
  worker_response id host,
  read,
  ap (λ r. r.0) enters,
  ap (λ r. (connect (some id) r.1).0) enters ∙ refused id left named gone,
  url_is id host,
)
  where
    created : AppState
    created = record s { workers = issue id now s.workers }

    left : AppState
    left = record created { workers = (claim id created.workers).1 }

    enters : connect (some id) created ≡ (upgrade, left)
    enters =
        let_in id created named (holds-insert_id id id s.workers.inner ∙ rw (text_eq_refl id)) below

    gone : holds id left.workers.inner ≡ false
    gone = holds-remove_id id id created.workers.inner ∙ rw (text_eq_refl id)

    read :
        read_answer from_slice (json_response (to_vec (worker_response id host)))
        ≡ some (worker_response id host)
    read =
        let (b, written, parsed) = total (worker_response id host) in
        ap (λ e. read_answer from_slice (json_response e)) written ∙ answer_of from_slice b ∙ parsed
