-- ===== src/Hub/Client/Supervise.antt =====
-- hub/client.rs: `supervise`, which connects again and again. Durations are in nanoseconds.
use vigil_collector.Prelude.{ℕ, ◌^◌, Bool, true, false, Option, none, some, List, [], ◌∷◌}
use vigil_collector.Float.{Float}
use vigil_collector.Hub.Client.Session.{Result, ok, err, panic}

abbrev pub backoff_initial : ℕ
backoff_initial = 10 ^ 9

-- The first `select!`: stopped, or `connect_and_push` has come to its result.
pub data Attempt : Type 0 where
  stopped : Attempt
  finished : Result (Unit {0}) → Attempt

-- One turn of the loop, as the world answers it; `woken` tells whether the stop came in the sleep.
pub record Turn : Type 0 where
  pub attempt : Attempt
  pub woken : Bool

pub data Outcome : Type 0 where
  looping returned panicked : Outcome

unfoldable pub before_sleep : Attempt → ℕ → Option ℕ
before_sleep stopped backoff = none
before_sleep (finished (ok u)) backoff = some backoff_initial
before_sleep (finished (err e)) backoff = some backoff
before_sleep (finished panic) backoff = none

unfoldable pub end_of : Attempt → Outcome
end_of stopped = returned
end_of (finished (ok u)) = looping
end_of (finished (err e)) = looping
end_of (finished panic) = panicked

module _ {F : Type 0} ⦃f : Float F⦄ where
  -- `BACKOFF_MAX.as_secs_f64()` is the literal 30.0.
  unfoldable pub next_secs : F → F
  next_secs secs = f.min (f.mul secs (f.lit 17 1)) (f.lit 30 0)

-- `as_secs` and `next` are `as_secs_f64`, and the growth with `from_secs_f64` behind it, whose panic
-- is `none`. The result: how long each turn has slept, and how the loop ended.
unfoldable pub supervise_from : (ℕ → Option ℕ) → ℕ → List Turn → List ℕ × Outcome
unfolding before_sleep end_of
supervise_from next backoff [] = ([], looping)
supervise_from next backoff (t ∷ ts) = elim (before_sleep t.attempt backoff) [
  | none ↦ ([], end_of t.attempt)
  | some d ↦ elim t.woken [
    | true ↦ (d ∷ [], returned)
    | false ↦ elim (next d) [
      | none ↦ (d ∷ [], panicked)
      | some b ↦ let later = supervise_from next b ts in (d ∷ later.0, later.1)
    ]
  ]
]

unfoldable pub supervise : {F : Type 0} → Float F → List Turn → List ℕ × Outcome
unfolding supervise_from next_secs
supervise f = supervise_from (λ d. f.from_secs (next_secs ⦃f = f⦄ (f.as_secs d))) backoff_initial
