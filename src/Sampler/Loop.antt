-- ===== src/Sampler/Loop.antt =====
-- sampler.rs: `Sampler::start`, the task that it spawns, and `stop`.
use vigil_collector.Prelude.{
  ℕ, ◌+◌, ◌-◌, Bool, true, false, ◌||◌, Option, none, some, List, [], ◌∷◌, if◌then◌else◌,
}
use vigil_collector.Float.{Float}
use vigil_collector.Snapshot.{Snapshot}
use vigil_collector.Sampler.State.{Sources, SamplerState, new_state, refresh}
use vigil_collector.Sampler.Cache.{Encoder, CachedJson, publish}

-- The two slots that the readers share.
pub record Shared (F : Type 0) : Type 0 where
  pub snapshot : Snapshot F
  pub json : CachedJson

-- The task: `state` is the variable of that name, `done` tells that the loop has been left, and
-- `panicked` that `state.take().expect(…)` has found nothing.
pub record Task (F Sys Prev : Type 0) : Type 0 where
  pub shared : Shared F
  pub state : Option (SamplerState F Sys Prev)
  pub done : Bool
  pub panicked : Bool

-- One round of the loop: stopped, or a sleep and then a refresh on the blocking pool, which succeeds or
-- panics; after a panic the state is built anew.
pub data Round (W : Type 0) : Type 0 where
  stopped : Round W
  ticked : W → Round W
  failed : W → Round W

unfoldable pub publish_snapshot : {F : Type 0} → Encoder F → Snapshot F → Shared F → Shared F
unfolding publish
publish_snapshot enc snap sh = record { snapshot = snap; json = publish enc snap sh.json }

module _ {F Sys W Prev : Type 0} (src : Sources F Sys W Prev) (enc : Encoder F) where
  -- The body of the loop behind the `select!`, with the state that `take` gave.
  unfoldable pub after_sleep :
      Round W → Option (SamplerState F Sys Prev) → Task F Sys Prev → Task F Sys Prev
  unfolding refresh publish_snapshot new_state
  after_sleep r none t = record t { state = none; panicked = true }
  after_sleep stopped (some s) t = t
  after_sleep (ticked w) (some s) t =
      let res = refresh src w s in
      record t { shared = publish_snapshot enc res.1 t.shared; state = some res.0 }
  after_sleep (failed w) (some s) t = record t { state = some (new_state src w) }

  unfoldable pub round : Round W → Task F Sys Prev → Task F Sys Prev
  unfolding after_sleep
  round stopped t = if t.done || t.panicked then t else record t { done = true }
  round (ticked w) t = if t.done || t.panicked then t else after_sleep (ticked w) t.state t
  round (failed w) t = if t.done || t.panicked then t else after_sleep (failed w) t.state t

  unfoldable pub rounds : List (Round W) → Task F Sys Prev → Task F Sys Prev
  unfolding round
  rounds [] t = t
  rounds (r ∷ rs) t = rounds rs (round r t)

  -- `start`, up to the spawn: the state is seeded once.
  unfoldable pub start : W → Shared F → Task F Sys Prev
  unfolding refresh publish_snapshot new_state
  start w sh =
      let res = refresh src w (new_state src w) in
      record {
        shared = publish_snapshot enc res.1 sh;
        state = some res.0;
        done = false;
        panicked = false;
      }

-- `Sampler::new`: the interval is at least a tenth of a second; `none` is the panic of `from_secs_f64`.
unfoldable pub sampler_interval : {F : Type 0} → Float F → F → Option ℕ
sampler_interval f secs = f.from_secs (f.max secs (f.lit 1 1))

-- `Sampler` as its owner sees it: `handle` tells whether a task is held, `spawned` counts the tasks that
-- were spawned, and `running` those of them that run.
pub record Sampler : Type 0 where
  pub handle : Bool
  pub spawned : ℕ
  pub running : ℕ

unfoldable pub start_sampler : Sampler → Sampler
start_sampler s =
    if s.handle
    then s
    else record { handle = true; spawned = s.spawned + 1; running = s.running + 1 }

-- The handle is taken, and its task aborted; without a handle nothing is aborted.
unfoldable pub stop_sampler : Sampler → Sampler
stop_sampler s = if s.handle then record s { handle = false; running = s.running - 1 } else s
