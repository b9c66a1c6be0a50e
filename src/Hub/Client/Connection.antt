-- ===== src/Hub/Client/Connection.antt =====
-- hub/client.rs: `HubClient`, its `start` and `stop`, and `connect_and_push` with the frames that one
-- connection sends. What the host says of itself is the record `Machine`.
use vigil_collector.Prelude.{
  ℕ, ◌+◌, ◌-◌, Bool, true, false, Option, none, some, List, [], ◌∷◌, map, if◌then◌else◌,
}
use vigil_collector.Float.{Float}
use vigil_collector.Text.{Text, codes}
use vigil_collector.Hub.Protocol.{Hello, HubFrame}
use vigil_collector.Hub.Client.Session.{
  Result, ok, err, panic, Incoming, hello, await_welcome, Frame, Round, push_loop, advertised_name,
}

-- `handle` tells whether a task is held, `spawned` counts those that `start` has spawned, and `running`
-- those of them that run.
pub record HubClient : Type 0 where
  pub url : Text
  pub key : Text
  pub host_name : Text
  pub tags : List Text
  pub handle : Bool
  pub spawned : ℕ
  pub running : ℕ

-- `gethostname` may give no text.
pub record Machine : Type 0 where
  pub hostname : Option Text
  pub os : Text
  pub arch : Text
  pub cpu_cores : Option ℕ

unfoldable pub new_client : Text → Text → Option Text → List Text → Machine → HubClient
unfolding advertised_name
new_client url key host_name tags machine = record {
  url = url;
  key = key;
  host_name = advertised_name host_name machine.hostname;
  tags = tags;
  handle = false;
  spawned = 0;
  running = 0;
}

unfoldable pub start_client : HubClient → HubClient
start_client c =
    if c.handle
    then c
    else record c { handle = true; spawned = c.spawned + 1; running = c.running + 1 }

-- The handle is taken, and its task aborted; without a handle nothing is aborted.
unfoldable pub stop_client : HubClient → HubClient
stop_client c = if c.handle then record c { handle = false; running = c.running - 1 } else c

-- A message that goes out: the greeting, or a frame of `push_loop`.
pub data Message (F : Type 0) : Type 0 where
  greeting : Hello → Message F
  pushed : Frame F → Message F

-- What the world answers in one connection: the errors of `connect_async` and of sending the greeting,
-- what arrives first, and the rounds of the loop.
pub record Dial (F : Type 0) : Type 0 where
  pub connect_error : Option Text
  pub hello_error : Option Text
  pub first : Incoming
  pub rounds : List (Round F)

unfoldable pub greeting_of : HubClient → Machine → Hello
unfolding hello
greeting_of c m =
    hello c.key c.host_name (elim m.hostname [ none ↦ codes "unknown" | some h ↦ h ]) m.os m.arch
      m.cpu_cores c.tags

module _ {F : Type 0} ⦃f : Float F⦄ where
  -- Behind the handshake; the panic of `from_secs_f64` ends the task.
  unfoldable pub push_after :
      Hello → Result ℕ → List (Round F) → List (Message F) × Option (Result (Unit {0}))
  unfolding push_loop
  push_after h (err e) rounds = (greeting h ∷ [], some (err e))
  push_after h panic rounds = (greeting h ∷ [], some panic)
  push_after h (ok interval) rounds =
      let sent = push_loop rounds in (greeting h ∷ map pushed sent.0, sent.1)

  -- The messages that go out, and the result, if the connection has ended. `parse` is serde's.
  unfoldable pub connect_and_push :
      (Text → Result (HubFrame F))
      → HubClient
      → Machine
      → ℕ
      → Dial F
      → List (Message F) × Option (Result (Unit {0}))
  unfolding greeting_of await_welcome push_after
  connect_and_push parse c m sampler_interval d = elim d.connect_error [
    | some e ↦ ([], some (err e))
    | none ↦ elim d.hello_error [
      | some e ↦ ([], some (err e))
      | none ↦ push_after (greeting_of c m) (await_welcome parse sampler_interval d.first) d.rounds
    ]
  ]
