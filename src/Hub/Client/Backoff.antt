-- ===== src/Hub/Client/Backoff.antt =====
-- hub/client.rs: how long the hub client waits between two connections.
use vigil_collector.Prelude.{
  ℕ, ◌*◌, ◌^◌, ◌≤◌, ◌≡◌, refl, sym, subst, ◌≢◌, inl, inr, true, false, Option, none, some, List, [],
  ◌∷◌, arith, Bool-cases, Option-cases, All,
}
use vigil_collector.Float.{Float, IsTimed}
use vigil_collector.Hub.Client.Session.{ok, err, panic}
use vigil_collector.Hub.Client.Supervise.{
  backoff_initial, Attempt, stopped, finished, Turn, Outcome, returned, panicked, before_sleep,
  end_of, next_secs, supervise_from, supervise,
}

abbrev pub backoff_max : ℕ
backoff_max = 30 * 10 ^ 9

module _ (next : ℕ → Option ℕ) (backoff : ℕ) (t : Turn) (ts : List Turn) where
  pub from_end :
      before_sleep t.attempt backoff ≡ none
      → supervise_from next backoff (t ∷ ts) ≡ ([], end_of t.attempt)
  unfolding supervise_from
  from_end e = rw (e, supervise_from)

  pub from_woken :
      (d : ℕ)
      → before_sleep t.attempt backoff ≡ some d
      → t.woken ≡ true
      → supervise_from next backoff (t ∷ ts) ≡ (d ∷ [], returned)
  unfolding supervise_from
  from_woken d e w = rw (e, w, supervise_from)

  pub from_step :
      (d b : ℕ)
      → before_sleep t.attempt backoff ≡ some d
      → t.woken ≡ false
      → next d ≡ some b
      → let later = supervise_from next b ts in
        supervise_from next backoff (t ∷ ts) ≡ (d ∷ later.0, later.1)
  unfolding supervise_from
  from_step d b e w n = rw (e, w, n, supervise_from)

pub before_sleep-le :
    (a : Attempt) (backoff d : ℕ)
    → backoff ≤ backoff_max
    → before_sleep a backoff ≡ some d
    → d ≤ backoff_max
unfolding before_sleep
before_sleep-le stopped backoff d le e = absurd (cc)
before_sleep-le (finished (ok u)) backoff d le e = ground arith
before_sleep-le (finished (err x)) backoff d le e = ground arith
before_sleep-le (finished panic) backoff d le e = absurd (cc)

end_of-calm : (a : Attempt) → a ≢ finished panic → end_of a ≢ panicked
unfolding end_of
end_of-calm stopped h e = cc
end_of-calm (finished (ok u)) h e = cc
end_of-calm (finished (err x)) h e = cc
end_of-calm (finished panic) h e = h refl

-- A connection that has come to its end, with an error or without one; the end without an error is also
-- that of a stop which `push_loop` takes in its own `select!`.
abbrev pub IsOver : Attempt → Type 0
IsOver stopped = ⊥
IsOver (finished (ok u)) = Unit {0}
IsOver (finished (err e)) = Unit {0}
IsOver (finished panic) = ⊥

-- A turn in which the connection is over and no stop comes in the sleep.
abbrev pub GoesOn : Turn → Type 0
GoesOn t = IsOver t.attempt × (t.woken ≡ false)

pub before_sleep-ne-none : (a : Attempt) (backoff : ℕ) → IsOver a → before_sleep a backoff ≢ none
unfolding before_sleep
before_sleep-ne-none stopped backoff h e = h
before_sleep-ne-none (finished (ok u)) backoff h e = cc
before_sleep-ne-none (finished (err x)) backoff h e = cc
before_sleep-ne-none (finished panic) backoff h e = h

-- A turn whose attempt does not panic.
abbrev pub IsCalm : Turn → Type 0
IsCalm t = t.attempt ≢ finished panic

module _ {F : Type 0} (f : Float F) (timed : IsTimed F ⦃f = f⦄) where
  pub next_bounded :
      (d : ℕ)
      → d ≤ backoff_max
      → (b : ℕ) × (f.from_secs (next_secs ⦃f = f⦄ (f.as_secs d)) ≡ some b) × (b ≤ backoff_max)
  unfolding next_secs
  next_bounded d le =
      let grown = timed.as_secs-mul_pos d 17 1 (omega arith) (omega arith) (omega arith) in
      let (low, high) = timed.min_within _ 30 (omega arith) grown in
      timed.from_secs_within _ 30 (omega arith) low high

  abbrev pub step_of : ℕ → Option ℕ
  step_of d = f.from_secs (next_secs ⦃f = f⦄ (f.as_secs d))

  abbrev pub IsBounded : List ℕ × Outcome → Type 0
  IsBounded r = All (λ d. d ≤ backoff_max) r.0 × (r.1 ≢ panicked)

  from_IsBounded :
      (backoff : ℕ) (ts : List Turn)
      → backoff ≤ backoff_max
      → All IsCalm ts
      → IsBounded (supervise_from step_of backoff ts)
  from_IsBounded backoff [] le c = unfold supervise_from in (tt, λ e. cc)
  from_IsBounded backoff (t ∷ ts) le (ct, c) =
      elim (Option-cases (before_sleep t.attempt backoff)) [
        | inl e ↦
            subst IsBounded (sym (from_end step_of backoff t ts e)) (tt, end_of-calm t.attempt ct)
        | inr (d, e) ↦
            let le' = before_sleep-le t.attempt backoff d le e in
            elim (Bool-cases t.woken) [
              | inl w ↦
                  subst IsBounded (sym (from_woken step_of backoff t ts d e w)) ((le', tt), λ x. cc)
              | inr w ↦
                  let (b, n, small) = next_bounded d le' in
                  let (all, fine) = from_IsBounded b ts small c in
                  subst IsBounded (sym (from_step step_of backoff t ts d b e w n))
                    ((le', all), fine)
            ]
      ]

  -- If no connection panics, the client sleeps at most 30 seconds between two connections, and the
  -- growth of the backoff does not panic either.
  pub supervise_bounded :
      (ts : List Turn)
      → All IsCalm ts
      → All (λ d. d ≤ backoff_max) (supervise f ts).0 × ((supervise f ts).1 ≢ panicked)
  unfolding supervise
  supervise_bounded ts c = from_IsBounded backoff_initial ts (omega arith) c
