-- ===== src/Hub/Client/Overflow.antt =====
-- hub/client.rs: the one panic of a connection.
use vigil_collector.Prelude.{
  ℕ, ◌≡◌, refl, ap, ◌∙◌, ◌≢◌, ◌↔◌, Option, none, some, List, [], ◌∷◌, ◌++◌,
}
use vigil_collector.Float.{Float}
use vigil_collector.Text.{Text}
use vigil_collector.Hub.Protocol.{HubFrame, welcome, error, ping, pong, unknown}
use vigil_collector.Hub.Client.Session.{
  Result, ok, err, panic, Incoming, text, other, close, ended, failure, ◌>>=◌, or_panic, on_frame,
  await_welcome, Choice, stop, sleep_over, received, wait, Round, Frame, round_frames, send_all,
  push_loop,
}
use vigil_collector.Hub.Client.Connection.{
  HubClient, Machine, Message, Dial, greeting_of, push_after, connect_and_push,
}

-- The wait between two rounds ends in no panic, and so neither do the rounds.
wait-calm : (choices : List Choice) → wait choices ≢ some panic
unfolding wait
wait-calm [] e = absurd (cc)
wait-calm (stop ∷ more) e = absurd (cc)
wait-calm (sleep_over ∷ more) e = absurd (cc)
wait-calm (received close ∷ more) e = absurd (cc)
wait-calm (received ended ∷ more) e = absurd (cc)
wait-calm (received (text s) ∷ more) e = wait-calm more e
wait-calm (received other ∷ more) e = wait-calm more e
wait-calm (received (failure t) ∷ more) e = absurd (cc)

or_panic-none : {A : Type 0} (o : Option A) → or_panic o ≡ panic ↔ o ≡ none
unfolding or_panic
or_panic-none none = (λ e. refl, λ e. refl)
or_panic-none (some a) = (λ e. absurd (cc), λ e. absurd (cc))

module _ {F : Type 0} ⦃f : Float F⦄ where
  after_round :
      (e : Option Text) (w : Option (Result (Unit {0}))) (xs ys : List (Frame F))
      (end : Option (Result (Unit {0})))
      → w ≢ some panic
      → end ≢ some panic
      → (elim e as (λ x. List (Frame F) × Option (Result (Unit {0}))) [
        | some t ↦ (xs, some (err t))
        | none ↦ elim w as (λ x. List (Frame F) × Option (Result (Unit {0}))) [
          | some result ↦ (xs, some result)
          | none ↦ (xs ++ ys, end)
        ]
      ]).1
        ≢ some panic
  after_round (some t) w xs ys end calm later h = absurd (cc)
  after_round none (some result) xs ys end calm later h = calm h
  after_round none none xs ys end calm later h = later h

  push_loop-calm : (rs : List (Round F)) → (push_loop rs).1 ≢ some panic
  unfolding push_loop
  push_loop-calm [] e = absurd (cc)
  push_loop-calm (r ∷ rs) e =
      let sent = send_all r.send_error 0 (round_frames r.snapshot r.ts) in
      after_round sent.1 (wait r.choices) sent.0 (push_loop rs).0 (push_loop rs).1
        (wait-calm r.choices) (push_loop-calm rs) e

  push_after-panic :
      (c : HubClient) (m : Machine) (r : Result ℕ) (rounds : List (Round F))
      → (push_after (greeting_of c m) r rounds).1 ≡ some panic ↔ r ≡ panic
  unfolding push_after
  push_after-panic c m (ok interval) rounds =
      (λ e. absurd (push_loop-calm rounds e), λ e. absurd (cc))
  push_after-panic c m (err t) rounds = (λ e. absurd (cc), λ e. absurd (cc))
  push_after-panic c m panic rounds = (λ e. refl, λ e. refl)

  -- An interval, or else the sampler's, that is no `Duration` when it is raised to a tenth of a second.
  abbrev pub TooLong : ℕ → Option F → Type 0
  TooLong sampler_interval i =
      f.from_secs (f.max (elim i [ none ↦ f.as_secs sampler_interval | some x ↦ x ]) (f.lit 1 1))
      ≡ none

  welcome-panic :
      (n : ℕ) (id : Option ℕ) (i : Option F) → on_frame n (welcome id i) ≡ panic ↔ TooLong n i
  unfolding on_frame
  welcome-panic n id none = or_panic-none (f.from_secs (f.max (f.as_secs n) (f.lit 1 1)))
  welcome-panic n id (some i) = or_panic-none (f.from_secs (f.max i (f.lit 1 1)))

  on_frame-panics :
      (n : ℕ) (x : HubFrame F)
      → on_frame n x ≡ panic
      → (id : Option ℕ) × (i : Option F) × (x ≡ welcome id i) × TooLong n i
  unfolding on_frame
  on_frame-panics n (welcome id i) e = (id, i, refl, (welcome-panic n id i).0 e)
  on_frame-panics n (error code message) e = absurd (cc)
  on_frame-panics n ping e = absurd (cc)
  on_frame-panics n pong e = absurd (cc)
  on_frame-panics n unknown e = absurd (cc)

  module _ (parse : Text → Result (HubFrame F)) where
    -- The text that arrives first is a welcome whose interval is too long.
    abbrev pub IsOverlong : ℕ → Incoming → Type 0
    IsOverlong n first =
        (s : Text) × (id : Option ℕ) × (i : Option F) × (first ≡ text s)
        × (parse s ≡ ok (welcome id i))
        × TooLong n i

    parsed_panics :
        (n : ℕ) (s : Text) (p : Result (HubFrame F))
        → parse s ≡ p
        → p ≢ panic
        → (p >>= on_frame n) ≡ panic
        → IsOverlong n (text s)
    parsed_panics n s (err t) ep calm e = absurd (cc)
    parsed_panics n s panic ep calm e = absurd (calm refl)
    parsed_panics n s (ok x) ep calm e =
        let (id, i, ex, over) = on_frame-panics n x e in
        (s, id, i, refl, ep ∙ ap (λ y. ok y) ex, over)

    await_welcome-panics :
        (n : ℕ) (first : Incoming)
        → ((s : Text) → parse s ≢ panic)
        → await_welcome parse n first ≡ panic
        → IsOverlong n first
    unfolding await_welcome
    await_welcome-panics n (text s) calm e = parsed_panics n s (parse s) refl (calm s) e
    await_welcome-panics n other calm e = absurd (cc)
    await_welcome-panics n close calm e = absurd (cc)
    await_welcome-panics n ended calm e = absurd (cc)
    await_welcome-panics n (failure t) calm e = absurd (cc)

    overlong_panics :
        (n : ℕ) (first : Incoming) → IsOverlong n first → await_welcome parse n first ≡ panic
    unfolding await_welcome
    overlong_panics n first (s, id, i, ef, ep, over) =
        ap (await_welcome parse n) ef
        ∙ (ap (λ p. p >>= on_frame n) ep ∙ (welcome-panic n id i).1 over)

    -- A connection ends in a panic exactly if the dial and the greeting succeed and the hub answers with
    -- a welcome whose interval (the sampler's, where it names none), raised to a tenth of a second, is no
    -- `Duration`. Whatever the rounds behind the welcome are, there is no other panic, as long as
    -- reading a frame does not panic.
    pub connect_and_push-panic :
        (c : HubClient) (m : Machine) (sampler_interval : ℕ) (d : Dial F)
        → ((s : Text) → parse s ≢ panic)
        → (connect_and_push parse c m sampler_interval d).1 ≡ some panic
          ↔ (d.connect_error ≡ none) × (d.hello_error ≡ none) × IsOverlong sampler_interval d.first
    unfolding connect_and_push
    connect_and_push-panic c m n d calm = go d.connect_error d.hello_error
      where
        go :
            (dialled said : Option Text)
            → (elim dialled as (λ x. List (Message F) × Option (Result (Unit {0}))) [
              | some e ↦ ([], some (err e))
              | none ↦ elim said as (λ x. List (Message F) × Option (Result (Unit {0}))) [
                | some e ↦ ([], some (err e))
                | none ↦ push_after (greeting_of c m) (await_welcome parse n d.first) d.rounds
              ]
            ]).1
                ≡ some panic
              ↔ (dialled ≡ none) × (said ≡ none) × IsOverlong n d.first
        go (some t) said = (λ e. absurd (cc), λ (a, b, h). absurd (cc))
        go none (some t) = (λ e. absurd (cc), λ (a, b, h). absurd (cc))
        go none none =
            let (there, back) = push_after-panic c m (await_welcome parse n d.first) d.rounds in
            (
              λ e. (refl, refl, await_welcome-panics n d.first calm (there e)),
              λ (a, b, h). back (overlong_panics n d.first h),
            )
