-- ===== src/Server/Ws/Frames.antt =====
-- server/ws.rs: what the client of a session sees.
use vigil_collector.Prelude.{
  ◌≤◌, ◌≡◌, refl, ◌≢◌, ◌⊎◌, inl, none, some, List, [], ◌∷◌, ◌++◌, map, arith, length, take, All,
}
use vigil_collector.Server.Ws.{
  Incoming, close, closed, message, failure, Ended, Round, drain, push_loop,
}

-- The client gets one frame for each round, in order, and it is what `ws_system` held in that round; a
-- loop that has not ended has sent the frame of every round, and the frames of a loop that has ended
-- stop at the round that ended it.
pub push_loop_frames :
    (rs : List Round)
    → let (frames, end) = push_loop rs in
      (map some frames ≡ map (λ r. r.ws_system) (take (length frames) rs))
      × (((end ≡ none) × (length frames ≡ length rs))
          ⊎ ((e : Ended) × (end ≡ some e) × (length frames ≤ length rs)))
unfolding push_loop
push_loop_frames [] = (refl, inl (refl, refl))
push_loop_frames (r ∷ rs) = ground (arith, push_loop_frames rs)

-- A message that is not a close frame does not end the wait, and the first close frame, end of stream
-- or error behind such messages does, with its own result.
drain_messages :
    (before : List Incoming) (last : Incoming) (more : List Incoming)
    → All (λ m. m ≡ message) before
    → last ≢ message
    → (drain (before ++ (last ∷ more)) ≡ drain (last ∷ []))
      × (drain (last ∷ []) ≢ none)
      × (drain before ≡ none)
unfolding drain
drain_messages [] close more h e = (refl, (λ n. cc), refl)
drain_messages [] closed more h e = (refl, (λ n. cc), refl)
drain_messages [] message more h e = absurd (e refl)
drain_messages [] (failure x) more h e = (refl, (λ n. cc), refl)
drain_messages (message ∷ before) last more (hm, h) e = drain_messages before last more h e
drain_messages (close ∷ before) last more (hm, h) e = absurd (cc)
drain_messages (closed ∷ before) last more (hm, h) e = absurd (cc)
drain_messages (failure x ∷ before) last more (hm, h) e = absurd (cc)
