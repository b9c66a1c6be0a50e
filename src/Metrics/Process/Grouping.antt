-- ===== src/Metrics/Process/Grouping.antt =====
-- metrics/process.rs: what the map of groups holds under a name, for both rankings.
use vigil_collector.Prelude.{
  ℕ, ◌≡◌, refl, sym, ap, ◌∙◌, subst, ◌≢◌, ◌⊎◌, inl, inr, Bool, true, false, not, ◌&&◌, Option, none,
  some, List, [], ◌∷◌, ◌++◌, map, arith, if◌then◌else◌, Bool-cases, All,
}
use vigil_collector.Float.{Float}
use vigil_collector.Text.{Text, text_eq, is_empty}
use vigil_collector.Text.Laws.{text_eq_iff}
use mathlib.Core.List.{append-nil, append_assoc}
use vigil_collector.Metrics.Process.Groups.{
  username_of, set_insert, add_username, to_mb, SysProcess, Aggregated, AggregatedCpu, upsert,
  find_entry, display_name, add_process, add_process_cpu, no_aggregate, no_aggregate_cpu,
  group_by_name, group_by_name_cpu,
}

abbrev pub or_default {ℓ} : {V : Type ℓ} → V → Option V → V
or_default d none = d
or_default d (some v) = v

module _ {ℓ} {V : Type ℓ} (d : V) (change : V → V) where
  -- A change under one name shows under that name alone.
  pub find_entry-upsert :
      (n k : Text) (m : List (Text × V))
      → find_entry n (upsert d change k m)
        ≡ (if text_eq k n then some (change (or_default d (find_entry n m))) else find_entry n m)
  unfolding find_entry upsert
  find_entry-upsert n k [] = refl
  find_entry-upsert n k ((j, v) ∷ m) =
      ground (arith, text_eq_iff j k, text_eq_iff k n, text_eq_iff j n, find_entry-upsert n k m)

module _ {F : Type 0} ⦃f : Float F⦄ (users : ℕ → Option Text) (n : Text) where
  -- The processes with the name, joined one by one; threads do not count.
  abbrev pub joined : List (SysProcess F) → Option (Aggregated F) → Option (Aggregated F)
  joined [] o = o
  joined (p ∷ ps) o = joined ps (
      if not p.is_thread && text_eq (display_name p) n
      then some (add_process users p (or_default no_aggregate o))
      else o)

  find_entry-joined :
      (ps : List (SysProcess F)) (m : List (Text × Aggregated F))
      → find_entry n (group_by_name users ps m) ≡ joined ps (find_entry n m)
  unfolding group_by_name
  find_entry-joined [] m = refl
  find_entry-joined (p ∷ ps) m = find_entry-joined ps _ ∙ ap (joined ps) (step p.is_thread)
    where
      step :
          (thread : Bool)
          → find_entry n
              (if thread then m else upsert no_aggregate (add_process users p) (display_name p) m)
            ≡ (if not thread && text_eq (display_name p) n
                then some (add_process users p (or_default no_aggregate (find_entry n m)))
                else find_entry n m)
      step true = refl
      step false = find_entry-upsert no_aggregate (add_process users p) n (display_name p) m

  -- The processes with the name that are no threads.
  abbrev pub members : List (SysProcess F) → List (SysProcess F)
  members [] = []
  members (p ∷ ps) =
      let rest = members ps in
      if not p.is_thread && text_eq (display_name p) n then p ∷ rest else rest

  -- The sum of the resident sizes, in MiB, from the first on.
  abbrev pub mem_sum : F → List (SysProcess F) → F
  mem_sum total [] = total
  mem_sum total (p ∷ ps) =
      mem_sum (f.add total (f.div (f.of_u64 p.memory) (f.mul (f.lit 1024 0) (f.lit 1024 0)))) ps

  -- The set of the users that are known by a name.
  abbrev pub user_set : List Text → List (SysProcess F) → List Text
  user_set us [] = us
  user_set us (p ∷ ps) =
      let u = username_of users p in user_set (if is_empty u then us else set_insert u us) ps

  -- A group with more processes.
  abbrev pub extended : Aggregated F → List (SysProcess F) → Aggregated F
  extended g ps = record {
    mem_mb = mem_sum g.mem_mb ps;
    pids = g.pids ++ map (λ p. p.pid) ps;
    usernames = user_set g.usernames ps;
  }

  abbrev pub group_of : List (SysProcess F) → Option (Aggregated F)
  group_of [] = none
  group_of (p ∷ ps) = some (record {
    mem_mb = mem_sum (f.lit 0 0) (p ∷ ps);
    pids = map (λ q. q.pid) (p ∷ ps);
    usernames = user_set [] (p ∷ ps);
  })

  extended-nil : (g : Aggregated F) → extended g [] ≡ g
  extended-nil g = ap (λ ids. record g { pids = ids }) (append-nil g.pids)

  extended-cons :
      (g : Aggregated F) (p : SysProcess F) (ps : List (SysProcess F))
      → extended (add_process users p g) ps ≡ extended g (p ∷ ps)
  unfolding add_process to_mb add_username
  extended-cons g p ps =
      ap (λ ids. record (extended g (p ∷ ps)) { pids = ids })
        (append_assoc g.pids (p.pid ∷ []) (map (λ q. q.pid) ps))

  joined-some :
      (ps : List (SysProcess F)) (g : Aggregated F)
      → joined ps (some g) ≡ some (extended g (members ps))
  joined-some [] g = ap some (sym (extended-nil g))
  joined-some (p ∷ ps) g = elim (Bool-cases (not p.is_thread && text_eq (display_name p) n)) [
    | inl e ↦
        rw e (joined-some ps (add_process users p g) ∙ ap some (extended-cons g p (members ps)))
    | inr e ↦ rw e (joined-some ps g)
  ]

  joined-none : (ps : List (SysProcess F)) → joined ps none ≡ group_of (members ps)
  joined-none [] = refl
  joined-none (p ∷ ps) = elim (Bool-cases (not p.is_thread && text_eq (display_name p) n)) [
    | inl e ↦ rw e (
        joined-some ps (add_process users p no_aggregate)
        ∙ ap some (extended-cons no_aggregate p (members ps)))
    | inr e ↦ rw e (joined-none ps)
  ]

  -- A name has a group exactly if some process that is no thread has it. The group holds just these
  -- processes, in the order of the process list: the sum of their resident sizes in MiB, their pids, and
  -- the set of their users' names, without those that are not known.
  pub find_entry-group_by_name :
      (ps : List (SysProcess F)) → find_entry n (group_by_name users ps []) ≡ group_of (members ps)
  unfolding find_entry
  find_entry-group_by_name ps = find_entry-joined ps [] ∙ joined-none ps

  abbrev pub joined_cpu : List (SysProcess F) → Option (AggregatedCpu F) → Option (AggregatedCpu F)
  joined_cpu [] o = o
  joined_cpu (p ∷ ps) o = joined_cpu ps (
      if not p.is_thread && text_eq (display_name p) n
      then some (add_process_cpu users p (or_default no_aggregate_cpu o))
      else o)

  pub find_entry-group_by_name_cpu :
      (ps : List (SysProcess F)) (m : List (Text × AggregatedCpu F))
      → find_entry n (group_by_name_cpu users ps m) ≡ joined_cpu ps (find_entry n m)
  unfolding group_by_name_cpu
  find_entry-group_by_name_cpu [] m = refl
  find_entry-group_by_name_cpu (p ∷ ps) m =
      find_entry-group_by_name_cpu ps _ ∙ ap (joined_cpu ps) (step p.is_thread)
    where
      step :
          (thread : Bool)
          → find_entry n (
              if thread
              then m
              else upsert no_aggregate_cpu (add_process_cpu users p) (display_name p) m)
            ≡ (if not thread && text_eq (display_name p) n
                then some (add_process_cpu users p (or_default no_aggregate_cpu (find_entry n m)))
                else find_entry n m)
      step true = refl
      step false = find_entry-upsert no_aggregate_cpu (add_process_cpu users p) n (display_name p) m

  -- A process that the group of `n` counts and that has run since the last scan.
  abbrev pub IsBusy : SysProcess F → Type 0
  IsBusy p =
      (p.is_thread ≡ false)
      × (display_name p ≡ n)
      × (f.lt (f.lit 0 0) p.cpu_usage ≡ true)
      × (p.pid ≢ 0)

  -- A process that is a thread, has another name or has not run.
  abbrev pub IsIdle : SysProcess F → Type 0
  IsIdle p = (p.is_thread ≡ true) ⊎ ((display_name p ≢ n) ⊎ (f.lt (f.lit 0 0) p.cpu_usage ≡ false))

  abbrev pub HasPid : ℕ → Option (AggregatedCpu F) → Type 0
  HasPid pid none = ⊥
  HasPid pid (some g) = g.pid ≡ pid

  idle_keeps :
      (pid : ℕ) (rest : List (SysProcess F)) (o : Option (AggregatedCpu F))
      → pid ≢ 0
      → All IsIdle rest
      → HasPid pid o
      → HasPid pid (joined_cpu rest o)
  unfolding add_process_cpu
  idle_keeps pid [] o z h k = k
  idle_keeps pid (p ∷ rest) none z (hp, h) k = absurd k
  idle_keeps pid (p ∷ rest) (some g) z (hp, h) k = idle_keeps pid rest _ z h (kept p.is_thread refl)
    where
      kept :
          (thread : Bool)
          → p.is_thread ≡ thread
          → HasPid pid (
              if not thread && text_eq (display_name p) n
              then some (add_process_cpu users p g)
              else some g)
      kept true e = k
      kept false e = ground (arith, text_eq_iff (display_name p) n)

  -- The pid that stands for a group is that of the last process of the group that has run since the
  -- last scan, whatever the shares of the others are.
  pub last_busy_pid :
      (before : List (SysProcess F)) (p : SysProcess F) (rest : List (SysProcess F))
      → IsBusy p
      → All IsIdle rest
      → HasPid p.pid (find_entry n (group_by_name_cpu users (before ++ (p ∷ rest)) []))
  unfolding add_process_cpu find_entry
  last_busy_pid before p rest (t, name, busy, z) h =
      subst (HasPid p.pid) (sym (find_entry-group_by_name_cpu (before ++ (p ∷ rest)) []))
        (go before none)
    where
      go :
          (qs : List (SysProcess F)) (o : Option (AggregatedCpu F))
          → HasPid p.pid (joined_cpu (qs ++ (p ∷ rest)) o)
      go [] o =
          idle_keeps p.pid rest _ z h
            (simp (t, (text_eq_iff (display_name p) n).1 name) (ground arith))
      go (q ∷ qs) o = go qs _
