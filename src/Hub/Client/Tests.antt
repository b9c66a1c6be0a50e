-- ===== src/Hub/Client/Tests.antt =====
-- Runs of the hub client, and its theorems at concrete inputs.
use vigil_collector.Prelude.{
  ◌*◌, ◌^◌, ◌≤◌, ◌≡◌, refl, ◌≢◌, ◌↔◌, inl, false, none, some, [], ◌∷◌, ◌++◌, arith, ltb,
  if◌then◌else◌, length, All,
}
use vigil_collector.Float.{Float}
use vigil_collector.Text.{Text, codes, text_eq, text_lt, lines_from, byte_len}
use vigil_collector.Float.Millis.{Millis, millis_float, Millis-IsTimed}
use vigil_collector.Snapshot.{Snapshot, default_snapshot}
use vigil_collector.Hub.Protocol.{HubFrame, welcome}
use vigil_collector.Hub.Client.Clip.{clip, IsCut, clip_longest}
use vigil_collector.Hub.Client.Session.{
  Result, ok, err, panic, text, close, advertised_name, Round, received, push_loop,
}
use vigil_collector.Hub.Client.Supervise.{finished, stopped, Turn, returned, panicked, supervise}
use vigil_collector.Hub.Client.Backoff.{backoff_max, supervise_bounded}
use vigil_collector.Hub.Client.Frames.{IsAcceptable, push_loop-IsAcceptable}
use vigil_collector.Hub.Client.Stopping.{ReturnsWithin, supervise_stops}
use vigil_collector.Target.{linux}
use vigil_collector.Hub.Client.Os.{detect_os, lines_with, detect_os-eq-find_distro}
use vigil_collector.Metrics.Platform.{find_distro}
use vigil_collector.Hub.Client.Connection.{
  HubClient, Machine, Dial, new_client, greeting_of, connect_and_push,
}
use vigil_collector.Hub.Client.Overflow.{IsOverlong, connect_and_push-panic}
use vigil_collector.Hub.Client.Handshake.{IsProper, connect_and_push-IsProper}

-- A character of two bytes does not fit into the last of three.
two_characters : clip (codes "ab" ++ (0xe9 ∷ codes "c")) 3 ≡ some (codes "ab")
unfolding clip
two_characters = refl

named : advertised_name (some []) (some (codes "box")) ≡ codes "box"
unfolding advertised_name
named = refl

abbrev failing : Turn
failing = record { attempt = finished (err (codes "refused")); woken = false }

abbrev ending : Turn
ending = record { attempt = finished (ok tt); woken = false }

abbrev stopping : Turn
stopping = record { attempt = stopped; woken = false }

-- One second, 1.7 and 2.89 seconds; then the connection comes up.
growing :
    supervise millis_float (failing ∷ failing ∷ failing ∷ ending ∷ stopping ∷ [])
    ≡ (1000000000 ∷ 1700000000 ∷ 2890000000 ∷ 1000000000 ∷ [], returned)
unfolding supervise
growing = refl

supervise_bounded_example :
    All (λ d. d ≤ backoff_max) (supervise millis_float (failing ∷ ending ∷ [])).0
    × ((supervise millis_float (failing ∷ ending ∷ [])).1 ≢ panicked)
supervise_bounded_example =
    supervise_bounded millis_float Millis-IsTimed (failing ∷ ending ∷ [])
      ((λ e. cc), ((λ e. cc), tt))

clip_longest_example :
    (t : Text) × (rest : Text) × (clip (0xe9 ∷ codes "c") 1 ≡ some t)
    × (0xe9 ∷ codes "c" ≡ t ++ rest)
    × (byte_len t ≤ 1)
    × IsCut 1 t rest
clip_longest_example = clip_longest (0xe9 ∷ codes "c") 1

abbrev busy_snapshot : Snapshot Millis
busy_snapshot = record default_snapshot {
  processes = record { pid = 7; name = codes "sh"; username = []; mem = some 1500 } ∷ [];
}

abbrev one_round : Round Millis
one_round = record {
  snapshot = busy_snapshot;
  ts = 10;
  send_error = λ i. none;
  choices = received close ∷ [];
}

two_frames_sent : length (push_loop (one_round ∷ [])).0 ≡ 2
unfolding push_loop default_snapshot text_eq text_lt
two_frames_sent = refl

push_loop-IsAcceptable_example : All IsAcceptable (push_loop (one_round ∷ [])).0
push_loop-IsAcceptable_example = push_loop-IsAcceptable (one_round ∷ [])

abbrev parse_any : Text → Result (HubFrame Millis)
parse_any s = ok (welcome (some 3) (some (some 2000)))

abbrev machine : Machine
machine = record {
  hostname = some (codes "box");
  os = codes "linux";
  arch = codes "x86_64";
  cpu_cores = some 4;
}

abbrev dial : Dial Millis
dial = record {
  connect_error = none;
  hello_error = none;
  first = text (codes "w");
  rounds = one_round ∷ [];
}

abbrev client : HubClient
client = new_client (codes "ws://hub") (codes "k") none [] machine

greeting_and_two_frames : length (connect_and_push parse_any client machine 1 dial).0 ≡ 3
unfolding connect_and_push new_client default_snapshot text_eq text_lt
greeting_and_two_frames = refl

connect_and_push-IsProper_example :
    IsProper parse_any
      (greeting_of client machine)
      dial.first
      (connect_and_push parse_any client machine 1 dial).0
connect_and_push-IsProper_example = connect_and_push-IsProper parse_any client machine 1 dial

supervise_stops_example :
    ReturnsWithin 2 (supervise millis_float (failing ∷ stopping ∷ ending ∷ []))
supervise_stops_example =
    supervise_stops millis_float Millis-IsTimed (failing ∷ []) stopping (ending ∷ [])
      ((tt, refl), tt) (inl refl)

abbrev os_release : Text
os_release = codes "NAME=\"Ubuntu\"\nPRETTY_NAME=\"Ubuntu 24.04\"\n"

pretty_for_the_hub : detect_os linux (some os_release) ≡ codes "Ubuntu 24.04"
unfolding detect_os
pretty_for_the_hub = refl

detect_os-eq-find_distro_example :
    detect_os linux (some os_release) ≡ find_distro (some os_release) none
unfolding lines_with lines_from
detect_os-eq-find_distro_example =
    detect_os-eq-find_distro os_release none (omega arith) (omega arith) (omega arith)

-- Floats whose seconds must fit in 64 bits.
abbrev tight : Float Millis
tight = record millis_float {
  from_secs = λ x. elim x [
    | none ↦ none
    | some a ↦ if ltb a (2 ^ 64 * 1000) then some (a * 10 ^ 6) else none
  ];
}

abbrev parse_huge : Text → Result (HubFrame Millis)
parse_huge s = ok (welcome none (some (some (2 ^ 70 * 1000))))

connect_and_push-panic_example :
    ((connect_and_push ⦃f = tight⦄ parse_huge client machine 1 dial).1 ≡ some panic)
    ↔ (dial.connect_error ≡ none)
      × (dial.hello_error ≡ none)
      × IsOverlong ⦃f = tight⦄ parse_huge 1 dial.first
connect_and_push-panic_example =
    connect_and_push-panic ⦃f = tight⦄ parse_huge client machine 1 dial (λ s e. absurd (cc))

-- The welcome of `parse_huge` does make the connection panic.
huge_panics : (connect_and_push ⦃f = tight⦄ parse_huge client machine 1 dial).1 ≡ some panic
unfolding connect_and_push
huge_panics = refl
