-- ===== src/Server/Http/Tests.antt =====
-- The handlers on a concrete state.
use vigil_collector.Prelude.{
  zero, suc, ◌≡◌, refl, ap, ◌∙◌, Option, none, some, [], ◌∷◌, ◌++◌, arith, length, take, drop,
}
use vigil_collector.Text.{Text, codes}
use vigil_collector.Server.Worker.{new_registry}
use vigil_collector.Server.Ws.{AppState, upgrade, forbidden, connect}
use vigil_collector.Server.Http.{
  WorkerResponse, Encoded, bytes, worker_response, create_worker, serve_index,
}
use vigil_collector.Server.Http.Answers.{read_answer, url_at, create_worker-connect}

abbrev token : Text
token = codes "tok"

abbrev idle : AppState
idle = record { workers = new_registry; max_ws_connections = 2; active_ws = 1 }

url_has_the_id :
    (worker_response token (some (codes "h:1"))).url ≡ some (codes "ws://h:1/connect?id=tok")
unfolding worker_response
url_has_the_id = refl

no_index : (serve_index none).status ≡ 404
unfolding serve_index
no_index = refl

-- A field is its length, one more than that of its text, and the text; 0 stands for none.
abbrev field : Option Text → Text
field none = 0 ∷ []
field (some t) = suc (length t) ∷ t

abbrev read_field : Text → Option (Option Text × Text)
read_field [] = none
read_field (zero ∷ s) = some (none, s)
read_field (suc n ∷ s) = some (some (take n s), drop n s)

abbrev to_vec : WorkerResponse → Encoded
to_vec w = bytes (field w.id ++ (field w.url ++ w.message))

abbrev with_url : Option Text → Option (Option Text × Text) → Option WorkerResponse
with_url id none = none
with_url id (some (url, message)) = some (record { id = id; url = url; message = message })

abbrev with_id : Option (Option Text × Text) → Option WorkerResponse
with_id none = none
with_id (some (id, s)) = with_url id (read_field s)

abbrev from_slice : Text → Option WorkerResponse
from_slice s = with_id (read_field s)

take-append : (t s : Text) → take (length t) (t ++ s) ≡ t
take-append [] s = refl
take-append (c ∷ t) s = ap (λ u. c ∷ u) (take-append t s)

drop-append : (t s : Text) → drop (length t) (t ++ s) ≡ s
drop-append [] s = refl
drop-append (c ∷ t) s = drop-append t s

read_field-field : (o : Option Text) (s : Text) → read_field (field o ++ s) ≡ some (o, s)
read_field-field none s = refl
read_field-field (some t) s = rw (take-append t s, drop-append t s)

serde_total : (w : WorkerResponse) → (b : Text) × (to_vec w ≡ bytes b) × (from_slice b ≡ some w)
serde_total w = (
  field w.id ++ (field w.url ++ w.message),
  refl,
  ap with_id (read_field-field w.id (field w.url ++ w.message))
      ∙ ap (with_url w.id) (read_field-field w.url w.message),
)

create_worker-connect_example :
    let answer = create_worker to_vec token 0 none idle.workers in
    let created = record idle { workers = answer.1 } in
    (w : WorkerResponse) × (read_answer from_slice answer.0 ≡ some w)
    × ((connect w.id created).0 ≡ upgrade)
    × ((connect w.id (connect w.id created).1).0 ≡ forbidden)
    × (w.url ≡ url_at w.id none)
create_worker-connect_example =
    create_worker-connect to_vec from_slice serde_total token 0 none idle refl (omega arith)
