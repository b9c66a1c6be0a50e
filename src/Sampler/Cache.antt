-- ===== src/Sampler/Cache.antt =====
-- sampler.rs: `CachedJson`, one cell of bytes for each projection of the snapshot. serde's `to_vec` is a
-- parameter, `none` its error.
use vigil_collector.Prelude.{Option, none, some}
use vigil_collector.Text.{Text, codes}
use vigil_collector.Snapshot.{
  Snapshot, HttpSystemView, WsSystemView, NetworkView, http_view, ws_view, network_view,
}

pub record Encoder (F : Type 0) : Type 0 where
  pub http_to_vec : HttpSystemView F → Option Text
  pub ws_to_vec : WsSystemView F → Option Text
  pub network_to_vec : NetworkView F → Option Text

pub record CachedJson : Type 0 where
  pub http_system : Text
  pub ws_system : Text
  pub network : Text

abbrev pub new_cache : CachedJson
new_cache = record {
  http_system = codes "{}";
  ws_system = codes "{}";
  network = codes "{\"interfaces\":[],\"statistics\":{}}";
}

-- `if let Ok(b) = … { cell.store(b) }`.
unfoldable pub store_ok : Option Text → Text → Text
store_ok none old = old
store_ok (some b) old = b

module _ {F : Type 0} (enc : Encoder F) where
  unfoldable pub publish : Snapshot F → CachedJson → CachedJson
  unfolding store_ok http_view ws_view network_view
  publish snap c = record {
    http_system = store_ok (enc.http_to_vec (http_view snap)) c.http_system;
    ws_system = store_ok (enc.ws_to_vec (ws_view snap)) c.ws_system;
    network = store_ok (enc.network_to_vec (network_view snap)) c.network;
  }
