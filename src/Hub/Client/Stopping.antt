-- ===== src/Hub/Client/Stopping.antt =====
-- hub/client.rs: how a stop ends the loop of `supervise`.
use vigil_collector.Prelude.{
  ℕ, suc, ◌≤◌, ◌≡◌, refl, sym, subst, ◌⊎◌, inl, inr, true, none, List, [], ◌∷◌, ◌++◌, arith,
  Option-cases, length, All,
}
use vigil_collector.Float.{Float, IsTimed}
use vigil_collector.Hub.Client.Supervise.{
  backoff_initial, stopped, Turn, Outcome, returned, end_of, before_sleep, supervise_from,
  supervise,
}
use vigil_collector.Hub.Client.Backoff.{
  IsOver, GoesOn, backoff_max, before_sleep-le, from_end, from_woken, from_step,
  before_sleep-ne-none, next_bounded, step_of,
}

-- A stop that one of the two `select!` of the supervisor takes: while a connection is open, or in the
-- sleep behind one that is over. A stop that `push_loop` takes is none of these: it ends the connection.
abbrev pub IsStopSeen : Turn → Type 0
IsStopSeen t = (t.attempt ≡ stopped) ⊎ (IsOver t.attempt × (t.woken ≡ true))

-- The loop has returned after at most that many sleeps.
abbrev pub ReturnsWithin : ℕ → List ℕ × Outcome → Type 0
ReturnsWithin n r = (length r.0 ≤ n) × (r.1 ≡ returned)

module _ {F : Type 0} (f : Float F) (timed : IsTimed F ⦃f = f⦄) where
  stops_here :
      (backoff : ℕ) (t : Turn) (rest : List Turn)
      → IsStopSeen t
      → ReturnsWithin 1 (supervise_from (step_of f timed) backoff (t ∷ rest))
  unfolding before_sleep end_of
  stops_here backoff t rest (inl e) =
      let none_left : before_sleep t.attempt backoff ≡ none = rw e in
      subst (ReturnsWithin 1) (sym (from_end (step_of f timed) backoff t rest none_left))
        (omega arith, rw e)
  stops_here backoff t rest (inr (s, w)) = elim (Option-cases (before_sleep t.attempt backoff)) [
    | inl e ↦ absurd (before_sleep-ne-none _ backoff s e)
    | inr (d, e) ↦
        subst (ReturnsWithin 1) (sym (from_woken (step_of f timed) backoff t rest d e w))
          (omega arith, refl)
  ]

  stops_after :
      (backoff : ℕ) (ts : List Turn) (t : Turn) (rest : List Turn)
      → backoff ≤ backoff_max
      → All GoesOn ts
      → IsStopSeen t
      → ReturnsWithin
          (suc (length ts))
          (supervise_from (step_of f timed) backoff (ts ++ (t ∷ rest)))
  stops_after backoff [] t rest le g st = stops_here backoff t rest st
  stops_after backoff (u ∷ ts) t rest le ((s, w), g) st =
      elim (Option-cases (before_sleep u.attempt backoff)) [
        | inl e ↦ absurd (before_sleep-ne-none _ backoff s e)
        | inr (d, e) ↦
            let (b, n, small) = next_bounded f timed d (before_sleep-le _ backoff d le e) in
            let (len, done) = stops_after b ts t rest small g st in
            subst (ReturnsWithin (suc (suc (length ts))))
              (sym (from_step (step_of f timed) backoff u (ts ++ (t ∷ rest)) d b e w n))
              (omega (arith, len), done)
      ]

  -- The first stop that the supervisor itself takes ends its loop: whether it comes while a connection is
  -- open or in a sleep, and however many connections were over before, also by a stop that only
  -- `push_loop` took, the loop returns, with one sleep at most for each turn, and whatever would come
  -- after is not begun.
  pub supervise_stops :
      (ts : List Turn) (t : Turn) (rest : List Turn)
      → All GoesOn ts
      → IsStopSeen t
      → ReturnsWithin (suc (length ts)) (supervise f (ts ++ (t ∷ rest)))
  unfolding supervise
  supervise_stops ts t rest g st = stops_after backoff_initial ts t rest (omega arith) g st
