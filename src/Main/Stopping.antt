-- ===== src/Main/Stopping.antt =====
-- main.rs: what runs when `main` has returned.
use vigil_collector.Prelude.{ℕ, ◌≤◌, ◌≡◌, refl, ◌≢◌, Bool, true, false, Option, none, some, arith}
use vigil_collector.Float.{Float}
use vigil_collector.Text.{Text}
use vigil_collector.Config.{Settings}
use vigil_collector.Sampler.Loop.{sampler_interval}
use vigil_collector.Hub.Client.Connection.{HubClient, Machine}
use vigil_collector.Main.{
  Cli, chosen_address, chosen_port, Resolver, resolve_addr, Started, unresolved, unbuilt, unbound,
  panicked, serving,
}
use vigil_collector.Main.Lifecycle.{
  Tasks, Exit, panic, returned_err, no_tasks, start_hub, stop_hub, stop_all, finish, main_at, main,
}

-- A client that was started once, holds no task and has none that runs.
abbrev pub IsStopped : Option HubClient → Type 0
IsStopped none = Unit {0}
IsStopped (some c) = (c.handle ≡ false) × (c.spawned ≡ 1) × (c.running ≡ 0)

abbrev pub IsQuiet : Tasks → Type 0
IsQuiet t =
    (t.sampler.handle ≡ false) × (t.sampler.spawned ≤ 1) × (t.sampler.running ≡ 0) × IsStopped t.hub

-- What `main` holds while the server runs.
abbrev StartedOnce : Option HubClient → Type 0
StartedOnce none = Unit {0}
StartedOnce (some c) = (c.handle ≡ true) × (c.spawned ≡ 1) × (c.running ≡ 1)

abbrev HasStarted : Tasks → Type 0
HasStarted t =
    (t.sampler.handle ≡ true)
    × (t.sampler.spawned ≡ 1)
    × (t.sampler.running ≡ 1)
    × StartedOnce t.hub

start_hub-StartedOnce :
    (args : Cli) (m : Machine) (target : Option (Text × Text))
    → StartedOnce (start_hub args m target)
unfolding start_hub
start_hub-StartedOnce args m none = tt
start_hub-StartedOnce args m (some (url, key)) = (refl, refl, refl)

stop_hub-IsStopped : (c : Option HubClient) → StartedOnce c → IsStopped (stop_hub c)
unfolding stop_hub
stop_hub-IsStopped none h = tt
stop_hub-IsStopped (some c) (held, once, runs) = rw held (refl, once, omega arith)

stop_all-IsQuiet : (t : Tasks) → HasStarted t → IsQuiet (stop_all t)
unfolding stop_all
stop_all-IsQuiet t (held, once, runs, h) =
    rw held (refl, omega arith, omega arith, stop_hub-IsStopped t.hub h)

finish-IsQuiet :
    {Addr : Type 0} (served : Option Text) (s : Started Addr) (t : Tasks)
    → HasStarted t
    → (finish served s t).0 ≢ panic
    → IsQuiet (finish served s t).1
unfolding finish
finish-IsQuiet served unresolved t h calm = stop_all-IsQuiet t h
finish-IsQuiet served unbuilt t h calm = stop_all-IsQuiet t h
finish-IsQuiet served unbound t h calm = stop_all-IsQuiet t h
finish-IsQuiet served panicked t h calm = absurd (calm refl)
finish-IsQuiet none (serving a x) t h calm = stop_all-IsQuiet t h
finish-IsQuiet (some e) (serving a x) t h calm = stop_all-IsQuiet t h

module _ {F Ip Addr : Type 0} ⦃f : Float F⦄ (r : Resolver Ip Addr) (builds : ℕ → Bool)
    (binds : Addr → Bool) (m : Machine) where
  main_at-IsQuiet :
      (served : Option Text) (args : Cli) (settings : Settings F) (addr : Addr)
      (interval : Option ℕ)
      → (main_at r builds binds m served args settings addr interval).0 ≢ panic
      → IsQuiet (main_at r builds binds m served args settings addr interval).1
  unfolding main_at
  main_at-IsQuiet served args settings addr none calm = absurd (calm refl)
  main_at-IsQuiet served args settings addr (some i) calm =
      finish-IsQuiet served _ _ (refl, omega arith, omega arith, start_hub-StartedOnce args m _)
        calm

  -- Unless it panics, `main` leaves nothing running, whatever made it return: the log, the address, the
  -- client of the probes, the listener, or the end of the server, in an error or not. Neither the sampler nor the
  -- hub client holds a task or has one that runs, and each was spawned once at most.
  pub main-IsQuiet :
      (log_ok : Bool) (served : Option Text) (args : Cli) (settings : Settings F)
      → (main r builds binds m log_ok served args settings).0 ≢ panic
      → IsQuiet (main r builds binds m log_ok served args settings).1
  unfolding main
  main-IsQuiet false served args settings calm = (refl, omega arith, refl, tt)
  main-IsQuiet true served args settings calm =
      go (resolve_addr r (chosen_address args settings) (chosen_port args settings)) calm
    where
      at : Addr → Exit × Tasks
      at addr =
          main_at r builds binds m served args settings addr
            (sampler_interval f settings.ws_push_interval)

      go :
          (o : Option Addr)
          → (elim o as (λ x. Exit × Tasks) [
            | none ↦ (returned_err, no_tasks)
            | some addr ↦ at addr
          ]).0
            ≢ panic
          → IsQuiet
              (elim o as (λ x. Exit × Tasks) [
                | none ↦ (returned_err, no_tasks)
                | some addr ↦ at addr
              ]).1
      go none k = (refl, omega arith, refl, tt)
      go (some addr) k = main_at-IsQuiet served args settings addr _ k
