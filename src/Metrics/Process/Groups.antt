-- ===== src/Metrics/Process/Groups.antt =====
-- metrics/process.rs: processes grouped by name. What sysinfo reports of a process is a record here,
-- and a `HashMap` is an association list; the order in which it yields its entries is a parameter of
-- the collectors.
use vigil_collector.Prelude.{
  ℕ, Bool, ◌||◌, Option, none, some, List, [], ◌∷◌, ◌++◌, ◌==◌, if◌then◌else◌,
}
use vigil_collector.Float.{Float}
use vigil_collector.Text.{Text, codes, text_eq, text_lt, is_empty}

-- The readings of `sysinfo::Process` that the code takes.
pub record SysProcess (F : Type 0) : Type 0 where
  pub pid : ℕ
  pub is_thread : Bool
  pub name : Text
  pub memory : ℕ
  pub cpu_usage : F
  pub user_id : Option ℕ

pub record Aggregated (F : Type 0) : Type 0 where
  pub mem_mb : F
  pub pids : List ℕ
  pub usernames : List Text

pub record AggregatedCpu (F : Type 0) : Type 0 where
  pub cpu_pct : F
  pub pid : ℕ
  pub usernames : List Text

-- `BTreeSet::insert`: the list is ascending and has no value twice.
unfoldable pub set_insert : Text → List Text → List Text
set_insert t [] = t ∷ []
set_insert t (s ∷ ss) =
    let later = s ∷ set_insert t ss in
    if text_eq t s then s ∷ ss else if text_lt t s then t ∷ s ∷ ss else later

module _ {ℓ} {V : Type ℓ} where
  -- `map.entry(k).or_default()`, changed by `change`.
  unfoldable pub upsert : V → (V → V) → Text → List (Text × V) → List (Text × V)
  upsert default change k [] = (k, change default) ∷ []
  upsert default change k ((j, v) ∷ m) =
      let later = (j, v) ∷ upsert default change k m in
      if text_eq j k then (j, change v) ∷ m else later

  unfoldable pub find_entry : Text → List (Text × V) → Option V
  find_entry k [] = none
  find_entry k ((j, v) ∷ m) = let later = find_entry k m in if text_eq j k then some v else later

module _ {F : Type 0} where
  unfoldable pub display_name : SysProcess F → Text
  display_name p = if is_empty p.name then codes "unknown" else p.name

  -- `users` is `get_user_by_id` with the user's name.
  unfoldable pub username_of : (ℕ → Option Text) → SysProcess F → Text
  username_of users p = elim p.user_id [
    | none ↦ []
    | some uid ↦ elim (users uid) [ none ↦ [] | some u ↦ u ]
  ]

unfoldable pub add_username : Text → List Text → List Text
add_username u us = if is_empty u then us else set_insert u us

module _ {F : Type 0} ⦃f : Float F⦄ where
  -- `x as f64 / (1024.0 * 1024.0)`.
  unfoldable pub to_mb : ℕ → F
  to_mb x = f.div (f.of_u64 x) (f.mul (f.lit 1024 0) (f.lit 1024 0))

  abbrev pub no_aggregate : Aggregated F
  no_aggregate = record { mem_mb = f.lit 0 0; pids = []; usernames = [] }

  unfoldable pub add_process : (ℕ → Option Text) → SysProcess F → Aggregated F → Aggregated F
  unfolding to_mb username_of add_username
  add_process users p entry = record {
    mem_mb = f.add entry.mem_mb (to_mb p.memory);
    pids = entry.pids ++ p.pid ∷ [];
    usernames = add_username (username_of users p) entry.usernames;
  }

  -- The first pass of `collect_top`, with the map so far.
  unfoldable pub group_by_name :
      (ℕ → Option Text)
      → List (SysProcess F)
      → List (Text × Aggregated F)
      → List (Text × Aggregated F)
  unfolding upsert add_process display_name
  group_by_name users [] by_name = by_name
  group_by_name users (p ∷ ps) by_name = group_by_name users ps (
      if p.is_thread
      then by_name
      else upsert no_aggregate (add_process users p) (display_name p) by_name)

  abbrev pub no_aggregate_cpu : AggregatedCpu F
  no_aggregate_cpu = record { cpu_pct = f.lit 0 0; pid = 0; usernames = [] }

  unfoldable pub add_process_cpu :
      (ℕ → Option Text) → SysProcess F → AggregatedCpu F → AggregatedCpu F
  unfolding username_of add_username
  add_process_cpu users p entry = record {
    cpu_pct = f.add entry.cpu_pct p.cpu_usage;
    pid = if (entry.pid == 0) || f.lt (f.lit 0 0) p.cpu_usage then p.pid else entry.pid;
    usernames = add_username (username_of users p) entry.usernames;
  }

  -- The first pass of `collect_top_cpu`, with the map so far.
  unfoldable pub group_by_name_cpu :
      (ℕ → Option Text)
      → List (SysProcess F)
      → List (Text × AggregatedCpu F)
      → List (Text × AggregatedCpu F)
  unfolding upsert add_process_cpu display_name
  group_by_name_cpu users [] by_name = by_name
  group_by_name_cpu users (p ∷ ps) by_name = group_by_name_cpu users ps (
      if p.is_thread
      then by_name
      else upsert no_aggregate_cpu (add_process_cpu users p) (display_name p) by_name)
