-- ===== src/Hub/Client/Handshake.antt =====
-- hub/client.rs: what a connection sends before and after the hub has answered.
use vigil_collector.Prelude.{
  ℕ, ◌≡◌, refl, ◌⊎◌, inl, inr, Option, none, some, List, [], ◌∷◌, map, All,
}
use vigil_collector.Float.{Float}
use vigil_collector.Text.{Text}
use vigil_collector.Hub.Protocol.{Hello, HubFrame, welcome}
use vigil_collector.Hub.Client.Session.{
  Result, ok, err, panic, Incoming, text, await_welcome, Frame, Round, push_loop,
}
use vigil_collector.Hub.Client.Frames.{IsAcceptable, push_loop-IsAcceptable, await_welcome_ok}
use vigil_collector.Hub.Client.Connection.{
  HubClient, Machine, Message, greeting, pushed, Dial, greeting_of, push_after, connect_and_push,
}

module _ {F : Type 0} ⦃f : Float F⦄ (parse : Text → Result (HubFrame F)) where
  -- The first thing that arrived was a welcome.
  abbrev pub IsWelcome : Incoming → Type 0
  IsWelcome m =
      (s : Text) × (host_id : Option ℕ) × (i : Option F) × (m ≡ text s)
      × (parse s ≡ ok (welcome host_id i))

  -- Nothing was sent, or the greeting and then frames, of which there are none without a welcome.
  abbrev pub IsProper : Hello → Incoming → List (Message F) → Type 0
  IsProper h first sent =
      (sent ≡ [])
      ⊎ ((frames : List (Frame F)) × (sent ≡ greeting h ∷ map pushed frames)
          × All IsAcceptable frames
          × ((frames ≡ []) ⊎ IsWelcome first))

  push_after-IsProper :
      (h : Hello) (first : Incoming) (r : Result ℕ) (rounds : List (Round F))
      → ((d : ℕ) → r ≡ ok d → IsWelcome first)
      → IsProper h first (push_after h r rounds).0
  unfolding push_after
  push_after-IsProper h first (ok d) rounds w =
      inr ((push_loop rounds).0, refl, push_loop-IsAcceptable rounds, inr (w d refl))
  push_after-IsProper h first (err e) rounds w = inr ([], refl, tt, inl refl)
  push_after-IsProper h first panic rounds w = inr ([], refl, tt, inl refl)

  -- Every connection sends nothing, or the greeting first; what follows the greeting are frames that
  -- the hub accepts, and there are none unless the hub's first message was a welcome.
  pub connect_and_push-IsProper :
      (c : HubClient) (m : Machine) (sampler_interval : ℕ) (d : Dial F)
      → IsProper (greeting_of c m) d.first (connect_and_push parse c m sampler_interval d).0
  unfolding connect_and_push
  connect_and_push-IsProper c m sampler_interval d = go d.connect_error d.hello_error
    where
      welcomed : (n : ℕ) → await_welcome parse sampler_interval d.first ≡ ok n → IsWelcome d.first
      welcomed n e =
          let (s, id, i, text_of, parsed, dur) =
            await_welcome_ok parse sampler_interval d.first n e in
          (s, id, i, text_of, parsed)

      go :
          (connect_error hello_error : Option Text)
          → IsProper
              (greeting_of c m)
              d.first
              (elim connect_error as (λ x. List (Message F) × Option (Result (Unit {0}))) [
                | some e ↦ ([], some (err e))
                | none ↦ elim hello_error as (λ x. List (Message F) × Option (Result (Unit {0}))) [
                  | some e ↦ ([], some (err e))
                  | none ↦
                      push_after
                        (greeting_of c m)
                        (await_welcome parse sampler_interval d.first)
                        d.rounds
                ]
              ]).0
      go (some e) o = inl refl
      go none (some e) = inl refl
      go none none = push_after-IsProper (greeting_of c m) d.first _ d.rounds welcomed
