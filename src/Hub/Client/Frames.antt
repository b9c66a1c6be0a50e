-- ===== src/Hub/Client/Frames.antt =====
-- hub/client.rs: what the hub receives.
use vigil_collector.Prelude.{
  ℕ, zero, suc, ◌+◌, ◌≤◌, ◌≡◌, refl, ◌≢◌, inl, inr, not, Option, none, some, List, [], ◌∷◌, map,
  arith, if◌then◌else◌, Bool-cases, Option-cases, length, take, All, All-append,
}
use vigil_collector.Float.{Float}
use vigil_collector.Text.{Text, codes, is_empty, byte_len}
use vigil_collector.Snapshot.{Snapshot, DiskInfo, Process, ProcessCpu}
use vigil_collector.BTree.{insert_key}
use vigil_collector.Hub.Flatten.{
  flatten, put_totals, put_disks, put_disk, is_skipped, bytes_ceiling, processes_max,
}
use vigil_collector.Hub.Flatten.Sizes.{IsMetric, flatten-IsMetric}
use vigil_collector.Hub.Protocol.{
  HubFrame, welcome, error, ping, pong, unknown, ProcessItem, ProcessCpuItem,
}
use vigil_collector.Hub.Client.Clip.{clip_longest}
use vigil_collector.Hub.Client.Session.{
  or_panic, ◌>>=◌, Result, ok, err, panic, Incoming, text, other, close, ended, failure, clipped,
  on_frame, await_welcome, process_item, process_cpu_item, Frame, samples, processes, processes_cpu,
  samples_frames, processes_frames, processes_cpu_frames, round_frames, Round, send_all, wait,
  push_loop,
}

clipped-le : (s : Text) → byte_len (clipped s) ≤ 256
unfolding clipped
clipped-le s = let (t, rest, e, whole, le, cut) = clip_longest s 256 in rw (e, clipped) le

-- What the code takes the hub to ask of a frame: no more than 25 items, no name over 256 bytes, and no size
-- in bytes over the ceiling, which is the constant of the code, 2^41.
abbrev pub IsItem : ProcessItem → Type 0
IsItem i = (byte_len i.name ≤ 256) × (byte_len i.username ≤ 256) × (i.mem_bytes ≤ bytes_ceiling)

abbrev pub IsCpuItem : {F : Type 0} → ProcessCpuItem F → Type 0
IsCpuItem i = (byte_len i.name ≤ 256) × (byte_len i.username ≤ 256)

abbrev pub IsAcceptable : {F : Type 0} ⦃f : Float F⦄ → Frame F → Type 0
IsAcceptable (samples s) = (s.metrics ≢ []) × All IsMetric s.metrics
IsAcceptable (processes p) = (length p.items ≤ processes_max) × All IsItem p.items × (p.items ≢ [])
IsAcceptable (processes_cpu p) =
    (length p.items ≤ processes_max) × All IsCpuItem p.items × (p.items ≢ [])

module _ {ℓ κ} {A : Type ℓ} {B : Type κ} (g : A → B) where
  length-take-map : (n : ℕ) (xs : List A) → length (map g (take n xs)) ≤ n
  length-take-map zero xs = omega arith
  length-take-map (suc n) [] = omega arith
  length-take-map (suc n) (x ∷ xs) = omega (arith, length-take-map n xs)

  All-map {μ} : (P : B → Type μ) (xs : List A) → ((x : A) → P (g x)) → All P (map g xs)
  All-map P [] h = tt
  All-map P (x ∷ xs) h = (h x, All-map P xs h)

module _ {F : Type 0} ⦃f : Float F⦄ where
  process_item-IsItem : (p : Process F) → IsItem (process_item p)
  unfolding process_item
  process_item-IsItem p = (clipped-le p.name, clipped-le p.username, omega arith)

  process_cpu_item-IsCpuItem : (p : ProcessCpu F) → IsCpuItem (process_cpu_item p)
  unfolding process_cpu_item
  process_cpu_item-IsCpuItem p = (clipped-le p.name, clipped-le p.username)

  insert_key-ne-nil : (k : Text) (v : F) (m : List (Text × F)) → insert_key k v m ≢ []
  unfolding insert_key
  insert_key-ne-nil k v [] = λ e. cc
  insert_key-ne-nil k v ((j, w) ∷ m) = ground arith

  put_disk-ne-nil : (d : DiskInfo F) (out : List (Text × F)) → out ≢ [] → put_disk d out ≢ []
  unfolding put_disk
  put_disk-ne-nil d out h = elim (Bool-cases (is_skipped d.mountpoint)) [
    | inl skip ↦ rw skip h
    | inr show ↦ rw show (insert_key-ne-nil _ _ _)
  ]

  put_disks-ne-nil :
      (ds : List (DiskInfo F)) (out : List (Text × F)) → out ≢ [] → put_disks ds out ≢ []
  unfolding put_disks
  put_disks-ne-nil [] out h = h
  put_disks-ne-nil (d ∷ ds) out h = put_disks-ne-nil ds (put_disk d out) (put_disk-ne-nil d out h)

  flatten-ne-nil : (s : Snapshot F) → flatten s ≢ []
  unfolding flatten put_totals
  flatten-ne-nil s = put_disks-ne-nil s.disks _ (insert_key-ne-nil _ _ _)

  samples_frames-IsAcceptable : (s : Snapshot F) (ts : ℕ) → All IsAcceptable (samples_frames s ts)
  unfolding samples_frames
  samples_frames-IsAcceptable s ts = cases (flatten s) (flatten-ne-nil s) (flatten-IsMetric s)
    where
      cases :
          (m : List (Text × F))
          → m ≢ []
          → All IsMetric m
          → All IsAcceptable (
              if not (is_empty m)
              then samples (record { v = 1; t = codes "samples"; ts = ts; metrics = m }) ∷ []
              else [])
      cases [] h a = tt
      cases (x ∷ m) h a = ((h, a), tt)

  processes_frames-IsAcceptable :
      (s : Snapshot F) (ts : ℕ) (ps : List (Process F))
      → s.processes ≡ ps
      → All IsAcceptable (processes_frames s ts)
  unfolding processes_frames
  processes_frames-IsAcceptable s ts [] e = simp e tt
  processes_frames-IsAcceptable s ts (p ∷ ps) e = simp e (
    (
      length-take-map process_item 25 (p ∷ ps),
      All-map process_item IsItem (take 25 (p ∷ ps)) process_item-IsItem,
      λ x. cc,
    ),
    tt,
  )

  processes_cpu_frames-IsAcceptable :
      (s : Snapshot F) (ts : ℕ) (ps : List (ProcessCpu F))
      → s.processes_by_cpu ≡ ps
      → All IsAcceptable (processes_cpu_frames s ts)
  unfolding processes_cpu_frames
  processes_cpu_frames-IsAcceptable s ts [] e = simp e tt
  processes_cpu_frames-IsAcceptable s ts (p ∷ ps) e = simp e (
    (
      length-take-map process_cpu_item 25 (p ∷ ps),
      All-map process_cpu_item IsCpuItem (take 25 (p ∷ ps)) process_cpu_item-IsCpuItem,
      λ x. cc,
    ),
    tt,
  )

  round_frames-IsAcceptable : (s : Snapshot F) (ts : ℕ) → All IsAcceptable (round_frames s ts)
  unfolding round_frames
  round_frames-IsAcceptable s ts =
      All-append IsAcceptable (samples_frames s ts) _ (samples_frames-IsAcceptable s ts) (
        All-append IsAcceptable (processes_frames s ts) (processes_cpu_frames s ts)
          (processes_frames-IsAcceptable s ts s.processes refl)
          (processes_cpu_frames-IsAcceptable s ts s.processes_by_cpu refl))

  send_all-All :
      (send_error : ℕ → Option Text) (i : ℕ) (xs : List (Frame F))
      → All IsAcceptable xs
      → All IsAcceptable (send_all send_error i xs).0
  unfolding send_all
  send_all-All send_error i [] h = tt
  send_all-All send_error i (x ∷ xs) (hx, h) = elim (Option-cases (send_error i)) [
    | inl e ↦ rw (e, send_all) (hx, send_all-All send_error (i + 1) xs h)
    | inr (x, e) ↦ rw (e, send_all) tt
  ]

  -- Every frame that reaches the hub, in every round and also before an error, is one that the hub
  -- accepts as the code sees it: at most 25 items and at least one, names and user names of at most 256
  -- bytes, a map of metrics that is not empty, and sizes in bytes, of processes, of the memory and of the
  -- mounts, of at most 2^41.
  pub push_loop-IsAcceptable : (rs : List (Round F)) → All IsAcceptable (push_loop rs).0
  unfolding push_loop
  push_loop-IsAcceptable [] = tt
  push_loop-IsAcceptable (r ∷ rs) =
      let sent = send_all r.send_error 0 (round_frames r.snapshot r.ts) in
      let fine = send_all-All r.send_error 0 _ (round_frames-IsAcceptable r.snapshot r.ts) in
      elim (Option-cases sent.1) [
        | inr (x, e) ↦ rw (e, push_loop) fine
        | inl e ↦ elim (Option-cases (wait r.choices)) [
          | inr (result, w) ↦ rw (e, w, push_loop) fine
          | inl w ↦
              rw (e, w, push_loop)
                (All-append IsAcceptable sent.0 (push_loop rs).0 fine (push_loop-IsAcceptable rs))
        ]
      ]

  abbrev pub or_sampler : ℕ → Option F → F
  or_sampler si none = f.as_secs si
  or_sampler si (some i) = i

  -- The handshake succeeds only by a text frame that parses to a welcome, and then with the interval
  -- that the hub names, or that of the sampler where it names none, raised to a tenth of a second.
  pub await_welcome_ok :
      (parse : Text → Result (HubFrame F)) (si : ℕ) (m : Incoming) (d : ℕ)
      → await_welcome parse si m ≡ ok d
      → (s : Text) × (host_id : Option ℕ) × (i : Option F) × (m ≡ text s)
        × (parse s ≡ ok (welcome host_id i))
        × (f.from_secs (f.max (or_sampler si i) (f.lit 1 1)) ≡ some d)
  unfolding await_welcome
  await_welcome_ok parse si (text s) d h = go (parse s) refl h
    where
      panic_or : (o : Option ℕ) → or_panic o ≡ ok d → o ≡ some d
      panic_or none e = absurd (unfold or_panic in cc)
      panic_or (some n) e = unfold or_panic in cc

      go :
          (r : Result (HubFrame F))
          → parse s ≡ r
          → (r >>= on_frame si) ≡ ok d
          → (s' : Text) × (host_id : Option ℕ) × (i : Option F) × (text s ≡ text s')
            × (parse s' ≡ ok (welcome host_id i))
            × (f.from_secs (f.max (or_sampler si i) (f.lit 1 1)) ≡ some d)
      go (ok (welcome id none)) e k = (s, id, none, refl, e, panic_or _ k)
      go (ok (welcome id (some i))) e k = (s, id, some i, refl, e, panic_or _ k)
      go (ok (error code message)) e k = absurd (cc)
      go (ok ping) e k = absurd (cc)
      go (ok pong) e k = absurd (cc)
      go (ok unknown) e k = absurd (cc)
      go (err x) e k = absurd (cc)
      go panic e k = absurd (cc)
  await_welcome_ok parse si other d h = absurd (cc)
  await_welcome_ok parse si close d h = absurd (cc)
  await_welcome_ok parse si ended d h = absurd (cc)
  await_welcome_ok parse si (failure e) d h = absurd (cc)
