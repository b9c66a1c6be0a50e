-- ===== src/Server/Http.antt =====
-- server/http.rs: the handlers that answer from the state. A response is its status, its content type and
-- its body; serde's `to_vec` is a parameter, and so are the embedded assets.
pub mod Answers
mod Tests
use vigil_collector.Prelude.{ℕ, Option, none, some, [], ◌++◌, if◌then◌else◌}
use vigil_collector.Text.{Text, codes, is_empty}
use vigil_collector.Sampler.Cache.{CachedJson}
use vigil_collector.Server.Worker.{WorkerRegistry, issue}

pub record Response : Type 0 where
  pub status : ℕ
  pub content_type : Text
  pub body : Text

pub record WorkerResponse : Type 0 where
  pub id : Option Text
  pub url : Option Text
  pub message : Text

-- `(status, text).into_response()`.
abbrev pub plain : ℕ → Text → Response
plain status text = record {
  status = status;
  content_type = codes "text/plain; charset=utf-8";
  body = text;
}

unfoldable pub raw_json : Text → Response
raw_json bytes = record { status = 200; content_type = codes "application/json"; body = bytes }

-- What `to_vec` gives: the bytes, or the text of its error.
pub data Encoded : Type 0 where
  bytes failed : Text → Encoded

unfoldable pub json_response : Encoded → Response
unfolding raw_json
json_response (bytes b) = raw_json b
json_response (failed e) = plain 500 e

-- An asset, with its type: `none` where it is not embedded.
unfoldable pub embedded_or : Option (Text × Text) → Text → Response
embedded_or none missing_text = plain 404 missing_text
embedded_or (some (mime, content)) missing_text = record {
  status = 200;
  content_type = mime;
  body = content;
}

unfoldable pub serve_index : Option (Text × Text) → Response
unfolding embedded_or
serve_index asset = embedded_or asset (codes "index missing")

unfoldable pub serve_favicon : Option (Text × Text) → Response
unfolding embedded_or
serve_favicon asset = embedded_or asset (codes "no favicon")

unfoldable pub worker_response : Text → Option Text → WorkerResponse
worker_response id host_header =
    let host : Text = elim host_header [ none ↦ [] | some h ↦ h ] in
    record {
      id = some id;
      url =
          if is_empty host
          then none
          else some (codes "ws://" ++ host ++ codes "/connect?id=" ++ id);
      message = codes "Websocket connection ready (Worker expires in 5 seconds if unclaimed).";
    }

-- `id` is what `generate_id` returned, `host` the header of that name, if it is text.
unfoldable pub create_worker :
    (WorkerResponse → Encoded) → Text → ℕ → Option Text → WorkerRegistry → Response × WorkerRegistry
unfolding issue worker_response json_response
create_worker to_vec id now host workers =
    (json_response (to_vec (worker_response id host)), issue id now workers)

unfoldable pub system : CachedJson → Response
unfolding raw_json
system c = raw_json c.http_system

unfoldable pub network : CachedJson → Response
unfolding raw_json
network c = raw_json c.network
