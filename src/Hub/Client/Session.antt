-- ===== src/Hub/Client/Session.antt =====
-- hub/client.rs: one connection to the hub, from the handshake to its end. The socket and serde are
-- arguments: what the world answers to each call.
use vigil_collector.Prelude.{
  ℕ, ◌+◌, min, not, Option, none, some, List, [], ◌∷◌, ◌++◌, map, if◌then◌else◌, take,
}
use vigil_collector.Float.{Float}
use vigil_collector.Text.{Text, codes, is_empty}
use vigil_collector.Snapshot.{Snapshot, Process, ProcessCpu}
use vigil_collector.Hub.Flatten.{flatten, bytes_ceiling, processes_max}
use vigil_collector.Hub.Protocol.{
  protocol_version, agent_version, Hello, HubFrame, welcome, error, ping, pong, unknown, Samples,
  ProcessItem, Processes, ProcessCpuItem, ProcessesCpu,
}
use vigil_collector.Hub.Client.Clip.{clip}

-- An `anyhow::Result<T>`, and the panic of a call that the code does not guard.
pub data Result {ℓ} (A : Type ℓ) : Type ℓ where
  ok : A → Result A
  err : Text → Result A
  panic : Result A

infixl 5 ◌>>=◌ ◌>>◌
abbrev pub ◌>>=◌ {ℓ κ} : {A : Type ℓ} {B : Type κ} → Result A → (A → Result B) → Result B
ok a >>= k = k a
err e >>= k = err e
panic >>= k = panic

abbrev pub ◌>>◌ {ℓ} : {B : Type ℓ} → Result (Unit {0}) → Result B → Result B
m >> k = m >>= λ _. k

-- What `rx.next().await` yields.
pub data Incoming : Type 0 where
  text : Text → Incoming
  other close ended : Incoming
  failure : Text → Incoming

unfoldable pub or_panic {ℓ} : {A : Type ℓ} → Option A → Result A
or_panic none = panic
or_panic (some a) = ok a

unfoldable pub or_default_text : Option Text → Text
or_default_text none = []
or_default_text (some t) = t

-- `HubClient::new`: the configured name, if it is not empty, or the name of the host.
unfoldable pub advertised_name : Option Text → Option Text → Text
advertised_name none none = codes "unknown"
advertised_name none (some host) = host
advertised_name (some n) none = if is_empty n then codes "unknown" else n
advertised_name (some n) (some host) = if is_empty n then host else n

-- `clip(…, 256)`, which does not panic.
unfoldable pub clipped : Text → Text
unfolding clip
clipped s = elim (clip s 256) [ none ↦ [] | some t ↦ t ]

unfoldable pub hello : Text → Text → Text → Text → Text → Option ℕ → List Text → Hello
hello key host_name hostname os arch cpu_cores tags = record {
  v = protocol_version;
  t = codes "hello";
  key = key;
  host = record {
    name = host_name;
    hostname = hostname;
    os = os;
    arch = arch;
    agent_version = agent_version;
    cpu_cores = cpu_cores;
    tags = tags;
  };
}

module _ {F : Type 0} ⦃f : Float F⦄ where
  -- The interval that the first frame of the hub sets, in nanoseconds; `parse` is serde's.
  unfoldable pub on_frame : ℕ → HubFrame F → Result ℕ
  unfolding or_panic or_default_text
  on_frame sampler_interval (welcome host_id none) =
      or_panic (f.from_secs (f.max (f.as_secs sampler_interval) (f.lit 1 1)))
  on_frame sampler_interval (welcome host_id (some i)) =
      or_panic (f.from_secs (f.max i (f.lit 1 1)))
  on_frame sampler_interval (error code message) =
      err (codes "hub error: " ++ (or_default_text code ++ (codes " " ++ or_default_text message)))
  on_frame sampler_interval ping = err (codes "hub: unexpected first frame")
  on_frame sampler_interval pong = err (codes "hub: unexpected first frame")
  on_frame sampler_interval unknown = err (codes "hub: unexpected first frame")

  unfoldable pub await_welcome : (Text → Result (HubFrame F)) → ℕ → Incoming → Result ℕ
  unfolding on_frame
  await_welcome parse sampler_interval (text s) = parse s >>= on_frame sampler_interval
  await_welcome parse sampler_interval other = err (codes "hub: non-text first frame")
  await_welcome parse sampler_interval close = err (codes "hub: non-text first frame")
  await_welcome parse sampler_interval (failure e) = err e
  await_welcome parse sampler_interval ended = err (codes "hub closed before welcome")

  unfoldable pub process_item : Process F → ProcessItem
  unfolding clipped
  process_item p = record {
    pid = p.pid;
    name = clipped p.name;
    username = clipped p.username;
    mem_bytes = min (f.to_u64 (f.mul (f.mul p.mem (f.lit 1024 0)) (f.lit 1024 0))) bytes_ceiling;
  }

  unfoldable pub process_cpu_item : ProcessCpu F → ProcessCpuItem F
  unfolding clipped
  process_cpu_item p = record {
    pid = p.pid;
    name = clipped p.name;
    username = clipped p.username;
    cpu_pct = p.cpu;
  }

pub data Frame (F : Type 0) : Type 0 where
  samples : Samples F → Frame F
  processes : Processes → Frame F
  processes_cpu : ProcessesCpu F → Frame F

module _ {F : Type 0} ⦃f : Float F⦄ where
  unfoldable pub samples_frames : Snapshot F → ℕ → List (Frame F)
  unfolding flatten
  samples_frames snap ts =
      let metrics = flatten snap in
      if not (is_empty metrics)
      then samples
          (record { v = protocol_version; t = codes "samples"; ts = ts; metrics = metrics })
        ∷ []
      else []

  unfoldable pub processes_frames : Snapshot F → ℕ → List (Frame F)
  unfolding process_item
  processes_frames snap ts =
      if not (is_empty snap.processes)
      then processes (record {
        v = protocol_version;
        t = codes "processes";
        ts = ts;
        metric = snap.processes_metric;
        items = map process_item (take processes_max snap.processes);
      })
        ∷ []
      else []

  unfoldable pub processes_cpu_frames : Snapshot F → ℕ → List (Frame F)
  unfolding process_cpu_item
  processes_cpu_frames snap ts =
      if not (is_empty snap.processes_by_cpu)
      then processes_cpu (record {
        v = protocol_version;
        t = codes "processes_cpu";
        ts = ts;
        items = map process_cpu_item (take processes_max snap.processes_by_cpu);
      })
        ∷ []
      else []

  -- The frames of one round of `push_loop`, in the order in which they are sent.
  unfoldable pub round_frames : Snapshot F → ℕ → List (Frame F)
  unfolding samples_frames processes_frames processes_cpu_frames
  round_frames snap ts =
      samples_frames snap ts ++ (processes_frames snap ts ++ processes_cpu_frames snap ts)

-- One choice of the `select!` in the wait between two rounds.
pub data Choice : Type 0 where
  stop sleep_over : Choice
  received : Incoming → Choice

-- `none` when the sleep is over, or when the choices so far decide nothing.
unfoldable pub wait : List Choice → Option (Result (Unit {0}))
wait [] = none
wait (stop ∷ more) = some (ok tt)
wait (sleep_over ∷ more) = none
wait (received close ∷ more) = some (ok tt)
wait (received ended ∷ more) = some (ok tt)
wait (received (text s) ∷ more) = wait more
wait (received other ∷ more) = wait more
wait (received (failure e) ∷ more) = some (err e)

-- What the world answers in one round: the snapshot and the time that the round reads, the errors of
-- serialising or sending, by the frame's place in the round, and the choices of the wait.
pub record Round (F : Type 0) : Type 0 where
  pub snapshot : Snapshot F
  pub ts : ℕ
  pub send_error : ℕ → Option Text
  pub choices : List Choice

module _ {F : Type 0} where
  -- Sends the frames in turn, up to the first error.
  unfoldable pub send_all : (ℕ → Option Text) → ℕ → List (Frame F) → List (Frame F) × Option Text
  send_all send_error i [] = ([], none)
  send_all send_error i (x ∷ xs) =
      let later = send_all send_error (i + 1) xs in
      elim (send_error i) [ some e ↦ ([], some e) | none ↦ (x ∷ later.0, later.1) ]

module _ {F : Type 0} ⦃f : Float F⦄ where
  -- The frames that reach the hub, and the result of the loop, if it ends in these rounds.
  unfoldable pub push_loop : List (Round F) → List (Frame F) × Option (Result (Unit {0}))
  unfolding round_frames send_all wait
  push_loop [] = ([], none)
  push_loop (r ∷ rs) =
      let later = push_loop rs in
      let sent = send_all r.send_error 0 (round_frames r.snapshot r.ts) in
      elim sent.1 [
        | some e ↦ (sent.0, some (err e))
        | none ↦ elim (wait r.choices) [
          | some result ↦ (sent.0, some result)
          | none ↦ (sent.0 ++ later.0, later.1)
        ]
      ]
