-- ===== src/Sampler/Safety.antt =====
-- sampler.rs: what the readers of the sampler can rely on.
use vigil_collector.Prelude.{
  ◌≡◌, refl, ◌≢◌, inl, inr, Bool, false, ◌||◌, Option, none, some, List, [], ◌∷◌, arith, Bool-cases,
  All,
}
use vigil_collector.Text.{Text}
use vigil_collector.Snapshot.{Snapshot, http_view, ws_view, network_view}
use vigil_collector.Sampler.State.{Sources, SamplerState, new_state, refresh}
use vigil_collector.Sampler.Cache.{Encoder, CachedJson, store_ok, publish}
use vigil_collector.Sampler.Loop.{
  Shared, Task, Round, stopped, ticked, failed, publish_snapshot, after_sleep, round, rounds, start,
}

module _ {F : Type 0} (enc : Encoder F) where
  -- The three cells hold the projections of one snapshot.
  pub record IsOf (snap : Snapshot F) (c : CachedJson) : Type 0 where
    pub http : enc.http_to_vec (http_view snap) ≡ some c.http_system
    pub ws : enc.ws_to_vec (ws_view snap) ≡ some c.ws_system
    pub net : enc.network_to_vec (network_view snap) ≡ some c.network

  -- serde_json writes every snapshot.
  pub record IsTotal : Type 0 where
    pub http_ok : (snap : Snapshot F) → (b : Text) × (enc.http_to_vec (http_view snap) ≡ some b)
    pub ws_ok : (snap : Snapshot F) → (b : Text) × (enc.ws_to_vec (ws_view snap) ≡ some b)
    pub net_ok :
        (snap : Snapshot F) → (b : Text) × (enc.network_to_vec (network_view snap) ≡ some b)

  pub store_ok-some :
      (o : Option Text) (old : Text) → ((b : Text) × (o ≡ some b)) → o ≡ some (store_ok o old)
  unfolding store_ok
  store_ok-some none old (b, e) = absurd (cc)
  store_ok-some (some c) old (b, e) = refl

  publish-IsOf : IsTotal → (snap : Snapshot F) (c : CachedJson) → IsOf snap (publish enc snap c)
  unfolding publish
  publish-IsOf total snap c = record {
    http = store_ok-some _ c.http_system (total.http_ok snap);
    ws = store_ok-some _ c.ws_system (total.ws_ok snap);
    net = store_ok-some _ c.network (total.net_ok snap);
  }

module _ {F Sys W Prev : Type 0} (src : Sources F Sys W Prev) (enc : Encoder F) where
  -- The task has its state and has not panicked, and the slots agree.
  pub record IsSound (t : Task F Sys Prev) : Type 0 where
    pub has_state : t.state ≢ none
    pub calm : t.panicked ≡ false
    pub agree : IsOf enc t.shared.snapshot t.shared.json

  after_sleep-IsSound :
      IsTotal enc
      → (r : Round W) (o : Option (SamplerState F Sys Prev)) (t : Task F Sys Prev) → t.state ≡ o
      → IsSound t
      → IsSound (after_sleep src enc r o t)
  unfolding after_sleep publish_snapshot
  after_sleep-IsSound total r none t e s = absurd (s.has_state e)
  after_sleep-IsSound total stopped (some x) t e s = s
  after_sleep-IsSound total (ticked w) (some x) t e s = record {
    has_state = λ n. cc;
    calm = s.calm;
    agree = publish-IsOf enc total (refresh src w x).1 t.shared.json;
  }
  after_sleep-IsSound total (failed w) (some x) t e s = record {
    has_state = λ n. cc;
    calm = s.calm;
    agree = s.agree;
  }

  round-IsSound :
      IsTotal enc → (r : Round W) (t : Task F Sys Prev) → IsSound t → IsSound (round src enc r t)
  unfolding round
  round-IsSound total stopped t s = elim (Bool-cases (t.done || t.panicked)) [
    | inl out ↦ rw out s
    | inr inside ↦ rw inside (record { has_state = s.has_state; calm = s.calm; agree = s.agree })
  ]
  round-IsSound total (ticked w) t s = elim (Bool-cases (t.done || t.panicked)) [
    | inl out ↦ rw out s
    | inr inside ↦ rw inside (after_sleep-IsSound total (ticked w) t.state t refl s)
  ]
  round-IsSound total (failed w) t s = elim (Bool-cases (t.done || t.panicked)) [
    | inl out ↦ rw out s
    | inr inside ↦ rw inside (after_sleep-IsSound total (failed w) t.state t refl s)
  ]

  pub rounds-IsSound :
      IsTotal enc
      → (rs : List (Round W)) (t : Task F Sys Prev) → IsSound t
      → IsSound (rounds src enc rs t)
  unfolding rounds
  rounds-IsSound total [] t s = s
  rounds-IsSound total (r ∷ rs) t s =
      rounds-IsSound total rs (round src enc r t) (round-IsSound total r t s)

  -- If serde can write every snapshot, then after any rounds of a started sampler, failed refreshes
  -- and a stop included, the state is there and the loop has not panicked, and the snapshot slot and
  -- the three cells of JSON belong to one and the same snapshot.
  pub started-IsSound :
      (total : IsTotal enc) (w : W) (sh : Shared F) (rs : List (Round W))
      → IsSound (rounds src enc rs (start src enc w sh))
  unfolding start publish_snapshot
  started-IsSound total w sh rs = rounds-IsSound total rs _ (record {
    has_state = λ n. cc;
    calm = refl;
    agree = publish-IsOf enc total (refresh src w (new_state src w)).1 sh.json;
  })

  -- No round but a stop.
  abbrev pub IsRunning : Round W → Type 0
  IsRunning r = r ≢ stopped

  in_loop : (d p : Bool) → d ≡ false → p ≡ false → (d || p) ≡ false
  in_loop d p ed ep = cc

  -- The task is in its loop: not left, not panicked, and with its state.
  abbrev pub IsAlive : Task F Sys Prev → Type 0
  IsAlive t = (t.state ≢ none) × (t.done ≡ false) × (t.panicked ≡ false)

  after_sleep-IsAlive :
      (r : Round W) (o : Option (SamplerState F Sys Prev)) (t : Task F Sys Prev)
      → t.state ≡ o
      → IsAlive t
      → IsAlive (after_sleep src enc r o t)
  unfolding after_sleep
  after_sleep-IsAlive r none t e (s, d, p) = absurd (s e)
  after_sleep-IsAlive stopped (some x) t e h = h
  after_sleep-IsAlive (ticked w) (some x) t e (s, d, p) = (λ n. cc, d, p)
  after_sleep-IsAlive (failed w) (some x) t e (s, d, p) = (λ n. cc, d, p)

  round-IsAlive :
      (r : Round W) (t : Task F Sys Prev) → IsRunning r → IsAlive t → IsAlive (round src enc r t)
  unfolding round
  round-IsAlive stopped t h a = absurd (h refl)
  round-IsAlive (ticked w) t h (s, d, p) =
      rw (in_loop t.done t.panicked d p) (after_sleep-IsAlive (ticked w) t.state t refl (s, d, p))
  round-IsAlive (failed w) t h (s, d, p) =
      rw (in_loop t.done t.panicked d p) (after_sleep-IsAlive (failed w) t.state t refl (s, d, p))

  rounds-IsAlive :
      (rs : List (Round W)) (t : Task F Sys Prev)
      → All IsRunning rs
      → IsAlive t
      → IsAlive (rounds src enc rs t)
  unfolding rounds
  rounds-IsAlive [] t h a = a
  rounds-IsAlive (r ∷ rs) t (hr, h) a =
      rounds-IsAlive rs (round src enc r t) h (round-IsAlive r t hr a)

  failed_keeps_shared :
      (t : Task F Sys Prev) (w : W) → (round src enc (failed w) t).shared ≡ t.shared
  unfolding round after_sleep
  failed_keeps_shared t w = ground arith

  -- The sampler does not die of a failed refresh: as long as nobody stops it, it stays in its loop with
  -- its state and does not panic, and a round that fails leaves the snapshot and the JSON that the readers
  -- see as they were.
  pub sampler_survives :
      (w : W) (sh : Shared F) (rs : List (Round W)) (v : W)
      → All IsRunning rs
      → let t = rounds src enc rs (start src enc w sh) in
        (t.state ≢ none)
        × (t.done ≡ false)
        × (t.panicked ≡ false)
        × ((round src enc (failed v) t).shared ≡ t.shared)
  unfolding start
  sampler_survives w sh rs v h =
      let (s, d, p) = rounds-IsAlive rs (start src enc w sh) h (λ n. cc, refl, refl) in
      (s, d, p, failed_keeps_shared (rounds src enc rs (start src enc w sh)) v)
