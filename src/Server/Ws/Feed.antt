-- ===== src/Server/Ws/Feed.antt =====
-- server/ws.rs on top of sampler.rs: what a session sends while the sampler runs.
use vigil_collector.Prelude.{
  ℕ, zero, suc, ◌≡◌, refl, sym, ap, ◌∙◌, ◌≤◌, ◌⊎◌, Option, none, some, List, [], ◌∷◌, map, length,
  take, subst,
}
use vigil_collector.Text.{Text}
use vigil_collector.Snapshot.{Snapshot, ws_view}
use vigil_collector.Sampler.State.{Sources}
use vigil_collector.Sampler.Cache.{Encoder}
use vigil_collector.Sampler.Loop.{Shared, Task, rounds, start}
use vigil_collector.Sampler.Loop
use vigil_collector.Sampler.Safety.{IsTotal, IsSound, rounds-IsSound, started-IsSound}
use vigil_collector.Server.Ws.{Incoming, Ended, Round, push_loop}
use vigil_collector.Server.Ws.Frames.{push_loop_frames}

-- One push: the rounds of the sampler before it, the error of `send`, if it fails, and what arrives before
-- the sleep is over.
pub record Push (W : Type 0) : Type 0 where
  pub before : List (Loop.Round W)
  pub send_error : Option Text
  pub incoming : List Incoming

take-map : {A B : Type 0} (f : A → B) (n : ℕ) (xs : List A) → map f (take n xs) ≡ take n (map f xs)
take-map f zero xs = refl
take-map f (suc n) [] = refl
take-map f (suc n) (x ∷ xs) = ap (λ ys. f x ∷ ys) (take-map f n xs)

module _ {F Sys W Prev : Type 0} (src : Sources F Sys W Prev) (enc : Encoder F) where
  -- The rounds of `push_loop`, which reads the cell of the sampler; serde writes UTF-8.
  abbrev pub feed : Task F Sys Prev → List (Push W) → List Round
  feed t [] = []
  feed t (p ∷ ps) =
      let u = rounds src enc p.before t in
      record {
        ws_system = some u.shared.json.ws_system;
        send_error = p.send_error;
        incoming = p.incoming;
      }
      ∷ feed u ps

  -- What the slot of the sampler holds at each push.
  abbrev pub slots : Task F Sys Prev → List (Push W) → List (Snapshot F)
  slots t [] = []
  slots t (p ∷ ps) = let u = rounds src enc p.before t in u.shared.snapshot ∷ slots u ps

  abbrev pub ws_json : Snapshot F → Option Text
  ws_json s = enc.ws_to_vec (ws_view s)

  feed-slots :
      IsTotal enc
      → (t : Task F Sys Prev) (ps : List (Push W)) → IsSound src enc t
      → map (λ r. r.ws_system) (feed t ps) ≡ map ws_json (slots t ps)
  feed-slots total t [] s = refl
  feed-slots total t (p ∷ ps) s =
      let u = rounds src enc p.before t in
      let su = rounds-IsSound src enc total p.before t s in
      ap (λ x. x ∷ map (λ r. r.ws_system) (feed u ps)) (sym su.agree.ws)
      ∙ ap (λ xs. ws_json u.shared.snapshot ∷ xs) (feed-slots total u ps su)

  length-feed : (t : Task F Sys Prev) (ps : List (Push W)) → length (feed t ps) ≡ length ps
  length-feed t [] = refl
  length-feed t (p ∷ ps) = ap (λ n. suc n) (length-feed (rounds src enc p.before t) ps)

  start-IsSound : IsTotal enc → (w : W) (sh : Shared F) → IsSound src enc (start src enc w sh)
  unfolding rounds
  start-IsSound total w sh = started-IsSound src enc total w sh []

  -- If serde can write every snapshot, then each frame that a client of a started sampler gets is the
  -- JSON of the snapshot that the sampler's slot held at that push, in the order of the pushes and
  -- without a gap; a session that has not ended has sent one for each push.
  pub push_loop-slots :
      (total : IsTotal enc) (w : W) (sh : Shared F) (ps : List (Push W))
      → let t = start src enc w sh in
        let (frames, end) = push_loop (feed t ps) in
        (map some frames ≡ map ws_json (take (length frames) (slots t ps)))
        × (((end ≡ none) × (length frames ≡ length ps))
            ⊎ ((e : Ended) × (end ≡ some e) × (length frames ≤ length ps)))
  push_loop-slots total w sh ps =
      let t = start src enc w sh in
      let (shown, ended) = push_loop_frames (feed t ps) in
      let n = length (push_loop (feed t ps)).0 in
      (
        shown
            ∙ take-map (λ r. r.ws_system) n (feed t ps)
            ∙ ap (take n) (feed-slots total t ps (start-IsSound total w sh))
            ∙ sym (take-map ws_json n (slots t ps)),
        subst
            (λ m.
              (((push_loop (feed t ps)).1 ≡ none) × (n ≡ m))
              ⊎ ((e : Ended) × ((push_loop (feed t ps)).1 ≡ some e) × (n ≤ m)))
            (length-feed t ps) ended,
      )
