-- ===== src/Sampler/Stores.antt =====
-- sampler.rs: the stores of `publish` and of the slot one by one, with readers between them. The load and
-- the store of an `ArcSwap` are atomic, so a reader sees what the stores so far have left.
use vigil_collector.Prelude.{
  ℕ, zero, suc, ◌≡◌, refl, ◌⊎◌, inl, inr, some, List, [], ◌∷◌, ◌++◌, take,
}
use vigil_collector.Snapshot.{Snapshot, http_view, ws_view, network_view}
use vigil_collector.Sampler.Cache.{Encoder, store_ok, publish}
use vigil_collector.Sampler.Loop.{Shared, publish_snapshot}
use vigil_collector.Sampler.Safety.{IsTotal, store_ok-some}

pub data Store (F : Type 0) : Type 0 where
  http_cell ws_cell network_cell slot : Snapshot F → Store F

module _ {F : Type 0} (enc : Encoder F) where
  unfoldable pub store : Store F → Shared F → Shared F
  unfolding store_ok
  store (http_cell s) sh = record sh {
    json = record sh.json {
      http_system = store_ok (enc.http_to_vec (http_view s)) sh.json.http_system;
    };
  }
  store (ws_cell s) sh = record sh {
    json = record sh.json { ws_system = store_ok (enc.ws_to_vec (ws_view s)) sh.json.ws_system };
  }
  store (network_cell s) sh = record sh {
    json = record sh.json {
      network = store_ok (enc.network_to_vec (network_view s)) sh.json.network;
    };
  }
  store (slot s) sh = record sh { snapshot = s }

  unfoldable pub store_all : List (Store F) → Shared F → Shared F
  unfolding store
  store_all [] sh = sh
  store_all (x ∷ xs) sh = store_all xs (store x sh)

-- `json.publish(&snapshot); snap_slot.store(…)`.
unfoldable pub stores_of : {F : Type 0} → Snapshot F → List (Store F)
stores_of s = http_cell s ∷ ws_cell s ∷ network_cell s ∷ slot s ∷ []

-- The stores of one snapshot after the other.
unfoldable pub stores : {F : Type 0} → List (Snapshot F) → List (Store F)
unfolding stores_of
stores [] = []
stores (s ∷ ss) = stores_of s ++ stores ss

module _ {F : Type 0} (enc : Encoder F) where
  -- The cells hold the projections of `a`, `b` and `c`, and the slot holds `d`.
  pub record Holds (a b c d : Snapshot F) (sh : Shared F) : Type 0 where
    pub http : enc.http_to_vec (http_view a) ≡ some sh.json.http_system
    pub ws : enc.ws_to_vec (ws_view b) ≡ some sh.json.ws_system
    pub net : enc.network_to_vec (network_view c) ≡ some sh.json.network
    pub slot_is : sh.snapshot ≡ d

  -- On the way from `old` to `new`: the cells go over in their order, and the slot last.
  abbrev pub Changes : Snapshot F → Snapshot F → Shared F → Type 0
  Changes old new sh =
      Holds old old old old sh
      ⊎ Holds new old old old sh
      ⊎ Holds new new old old sh
      ⊎ Holds new new new old sh

  -- Between two neighbours of a list of snapshots, or at its end.
  abbrev pub IsAmong : Snapshot F → List (Snapshot F) → Shared F → Type 0
  IsAmong s [] sh = Holds s s s s sh
  IsAmong s (t ∷ ts) sh = Changes s t sh ⊎ IsAmong t ts sh

  store_all-publish :
      (s : Snapshot F) (sh : Shared F) → store_all enc (stores_of s) sh ≡ publish_snapshot enc s sh
  unfolding store_all stores_of publish_snapshot publish
  store_all-publish s sh = refl

  http_stored :
      IsTotal enc
      → (s t : Snapshot F) (sh : Shared F) → Holds s s s s sh
      → Holds t s s s (store enc (http_cell t) sh)
  unfolding store
  http_stored total s t sh h = record {
    http = store_ok-some enc _ _ (total.http_ok t);
    ws = h.ws;
    net = h.net;
    slot_is = h.slot_is;
  }

  ws_stored :
      IsTotal enc
      → (s t : Snapshot F) (sh : Shared F) → Holds t s s s sh
      → Holds t t s s (store enc (ws_cell t) sh)
  unfolding store
  ws_stored total s t sh h = record {
    http = h.http;
    ws = store_ok-some enc _ _ (total.ws_ok t);
    net = h.net;
    slot_is = h.slot_is;
  }

  network_stored :
      IsTotal enc
      → (s t : Snapshot F) (sh : Shared F) → Holds t t s s sh
      → Holds t t t s (store enc (network_cell t) sh)
  unfolding store
  network_stored total s t sh h = record {
    http = h.http;
    ws = h.ws;
    net = store_ok-some enc _ _ (total.net_ok t);
    slot_is = h.slot_is;
  }

  slot_stored :
      (s t : Snapshot F) (sh : Shared F) → Holds t t t s sh → Holds t t t t (store enc (slot t) sh)
  unfolding store
  slot_stored s t sh h = record { http = h.http; ws = h.ws; net = h.net; slot_is = refl }

  -- If serde can write every snapshot, and the cells and the slot hold `s` before, then after any number
  -- of the stores that publish a series of snapshots a reader finds one snapshot everywhere, or an old
  -- one and the next one: the next one then in the first few of the cells of /system, the WebSocket and
  -- /network, in this order, and the old one in the slot of the hub.
  pub stores-IsAmong :
      IsTotal enc
      → (s : Snapshot F) (ss : List (Snapshot F)) (sh : Shared F) (n : ℕ) → Holds s s s s sh
      → IsAmong s ss (store_all enc (take n (stores ss)) sh)
  unfolding stores store_all
  stores-IsAmong total s [] sh zero h = h
  stores-IsAmong total s [] sh (suc n) h = h
  stores-IsAmong total s (t ∷ ts) sh zero h = inl (inl h)
  stores-IsAmong total s (t ∷ ts) sh (suc zero) h = inl (inr (inl (http_stored total s t sh h)))
  stores-IsAmong total s (t ∷ ts) sh (suc (suc zero)) h =
      inl (inr (inr (inl (ws_stored total s t _ (http_stored total s t sh h)))))
  stores-IsAmong total s (t ∷ ts) sh (suc (suc (suc zero))) h = inl (
      inr (
        inr
          (inr (network_stored total s t _ (ws_stored total s t _ (http_stored total s t sh h))))))
  stores-IsAmong total s (t ∷ ts) sh (suc (suc (suc (suc n)))) h = inr (
      stores-IsAmong total t ts _ n (
        slot_stored s t _
          (network_stored total s t _ (ws_stored total s t _ (http_stored total s t sh h)))))
