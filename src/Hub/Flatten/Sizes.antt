-- ===== src/Hub/Flatten/Sizes.antt =====
-- hub/flatten.rs: the sizes in the metrics.
use vigil_collector.Prelude.{
  ℕ, ◌≤◌, ◌≡◌, refl, ◌⊎◌, inl, inr, Bool, true, false, ◌||◌, Option, none, some, List, [], ◌∷◌,
  ◌++◌, arith, if◌then◌else◌, Bool-cases, All,
}
use vigil_collector.Float.{Float}
use vigil_collector.Text.{Text, codes, text_eq, text_lt, starts_with}
use vigil_collector.BTree.{insert_key}
use vigil_collector.Snapshot.{Snapshot, DiskInfo, Cpu, LoadAvg}
use vigil_collector.Hub.Flatten.{
  Metrics, bytes_ceiling, is_skipped, gib_to_bytes, put_cpu, put_totals, put_disk, put_disks,
  flatten,
}

-- The keys of the metrics that are sizes in bytes.
unfoldable pub is_size : Text → Bool
unfolding text_eq starts_with
is_size k =
    text_eq k (codes "mem.total_bytes")
    || text_eq k (codes "mem.used_bytes")
    || text_eq k (codes "mem.free_bytes")
    || starts_with (codes "disk.total_bytes|") k
    || starts_with (codes "disk.used_bytes|") k

module _ {F : Type 0} ⦃f : Float F⦄ where
  -- A metric that is no size, or is a size up to the ceiling.
  abbrev pub IsMetric : Text × F → Type 0
  IsMetric m = (is_size m.0 ≡ false) ⊎ ((n : ℕ) × (m.1 ≡ f.of_u64 n) × (n ≤ bytes_ceiling))

  small : (k : Text) (x : F) → IsMetric (k, f.of_u64 (gib_to_bytes x))
  unfolding gib_to_bytes
  small k x = inr (gib_to_bytes x, refl, omega arith)

  insert_key-IsMetric :
      (k : Text) (v : F) (m : Metrics F)
      → IsMetric (k, v)
      → All IsMetric m
      → All IsMetric (insert_key k v m)
  unfolding insert_key
  insert_key-IsMetric k v [] h hm = (h, tt)
  insert_key-IsMetric k v ((j, w) ∷ m) h (hj, hm) = elim (Bool-cases (text_eq j k)) [
    | inl same ↦ rw same (h, hm)
    | inr apart ↦ elim (Bool-cases (text_lt k j)) [
      | inl before ↦ rw (apart, before) (h, (hj, hm))
      | inr behind ↦ rw (apart, behind) (hj, insert_key-IsMetric k v m h hm)
    ]
  ]

  either :
      (b : Bool) (x y : Metrics F)
      → All IsMetric x
      → All IsMetric y
      → All IsMetric (if b then x else y)
  either true x y hx hy = hx
  either false x y hx hy = hy

  loads :
      (o : Option (LoadAvg F)) (m : Metrics F)
      → All IsMetric m
      → All IsMetric (elim o as (λ x. Metrics F) [
        | none ↦ m
        | some load ↦ insert_key (codes "cpu.load_15m") load.fifteen (
            insert_key
              (codes "cpu.load_5m")
              load.five
              (insert_key (codes "cpu.load_1m") load.one m))
      ])
  unfolding is_size
  loads none m h = h
  loads (some load) m h =
      insert_key-IsMetric _ _ _ (inl refl)
        (insert_key-IsMetric _ _ _ (inl refl) (insert_key-IsMetric _ _ _ (inl refl) h))

  put_cpu-IsMetric : (c : Cpu F) (m : Metrics F) → All IsMetric m → All IsMetric (put_cpu c m)
  unfolding put_cpu is_size
  put_cpu-IsMetric c m h =
      let usage = insert_key-IsMetric (codes "cpu.usage") c.usage m (inl refl) h in
      let freq =
        either _ _ _ (insert_key-IsMetric (codes "cpu.freq_mhz") c.freq _ (inl refl) usage) usage in
      let load = loads c.load _ freq in
      either _ _ _ (insert_key-IsMetric (codes "cpu.temp_c") c.temp _ (inl refl) load) load

  put_totals-IsMetric :
      (s : Snapshot F) (m : Metrics F) → All IsMetric m → All IsMetric (put_totals s m)
  unfolding put_totals is_size
  put_totals-IsMetric s m h = put _ _ _ (inl refl) (
      put _ _ _ (inl refl) (
        put _ _ _ (inl refl) (
          put _ _ _ (inl refl) (
            put _ _ _ (inl refl) (
              put _ _ _ (inl refl) (
                put _ _ _ (inl refl) (
                  put _ _ _ (small (codes "mem.free_bytes") s.mem.free) (
                    put _ _ _ (small (codes "mem.used_bytes") s.mem.used)
                      (put _ _ _ (small (codes "mem.total_bytes") s.mem.total) h)))))))))
    where
      put :
          (k : Text) (v : F) (m : Metrics F)
          → IsMetric (k, v)
          → All IsMetric m
          → All IsMetric (insert_key k v m)
      put = insert_key-IsMetric

  put_disk-IsMetric :
      (d : DiskInfo F) (m : Metrics F) → All IsMetric m → All IsMetric (put_disk d m)
  unfolding put_disk is_size
  put_disk-IsMetric d m h = elim (Bool-cases (is_skipped d.mountpoint)) [
    | inl skip ↦ rw skip h
    | inr show ↦ rw show (
        insert_key-IsMetric _ _ _ (inl refl) (
          insert_key-IsMetric _ _ _ (small (codes "disk.used_bytes|" ++ d.mountpoint) d.used) (
            insert_key-IsMetric _ _ _ (small (codes "disk.total_bytes|" ++ d.mountpoint) d.total)
              h)))
  ]

  put_disks-IsMetric :
      (ds : List (DiskInfo F)) (m : Metrics F) → All IsMetric m → All IsMetric (put_disks ds m)
  unfolding put_disks
  put_disks-IsMetric [] m h = h
  put_disks-IsMetric (d ∷ ds) m h = put_disks-IsMetric ds (put_disk d m) (put_disk-IsMetric d m h)

  pub flatten-IsMetric : (s : Snapshot F) → All IsMetric (flatten s)
  unfolding flatten
  flatten-IsMetric s =
      put_disks-IsMetric s.disks _ (put_totals-IsMetric s _ (put_cpu-IsMetric s.cpu [] tt))
