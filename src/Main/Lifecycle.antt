-- ===== src/Main/Lifecycle.antt =====
-- main.rs: `main` as a whole, with the tasks that it starts and stops. The log's set-up, what
-- `axum::serve` returns at the end, and the machine are arguments; the watcher of the signals only wakes
-- the server, so that `axum::serve` returns.
use vigil_collector.Prelude.{ℕ, Bool, false, not, Option, none, some, if◌then◌else◌}
use vigil_collector.Float.{Float}
use vigil_collector.Text.{Text}
use vigil_collector.Config.{Settings}
use vigil_collector.Sampler.Loop.{Sampler, sampler_interval, start_sampler, stop_sampler}
use vigil_collector.Hub.Client.Connection.{
  HubClient, Machine, new_client, start_client, stop_client,
}
use vigil_collector.Main.{
  Cli, parse_tags, chosen_address, chosen_port, Resolver, resolve_addr, hub_target, Started,
  unresolved, unbuilt, unbound, panicked, serving, serve,
}

pub record Tasks : Type 0 where
  pub sampler : Sampler
  pub hub : Option HubClient

pub data Exit : Type 0 where
  returned_ok returned_err panic : Exit

abbrev pub no_tasks : Tasks
no_tasks = record { sampler = record { handle = false; spawned = 0; running = 0 }; hub = none }

-- `hub_client`, started where there is a target.
unfoldable pub start_hub : Cli → Machine → Option (Text × Text) → Option HubClient
unfolding new_client start_client parse_tags
start_hub args m none = none
start_hub args m (some (url, key)) =
    some (start_client (new_client url key args.hub_name (parse_tags args) m))

unfoldable pub stop_hub : Option HubClient → Option HubClient
unfolding stop_client
stop_hub none = none
stop_hub (some c) = some (stop_client c)

unfoldable pub stop_all : Tasks → Tasks
unfolding stop_hub stop_sampler
stop_all t = record { sampler = stop_sampler t.sampler; hub = stop_hub t.hub }

-- Behind `serve`, whose panic passes the stops by; `served` is the error that a server ends with.
unfoldable pub finish : {Addr : Type 0} → Option Text → Started Addr → Tasks → Exit × Tasks
unfolding stop_all
finish served unresolved t = (returned_err, stop_all t)
finish served unbuilt t = (returned_err, stop_all t)
finish served unbound t = (returned_err, stop_all t)
finish served panicked t = (panic, t)
finish none (serving a h) t = (returned_ok, stop_all t)
finish (some e) (serving a h) t = (returned_err, stop_all t)

module _ {F Ip Addr : Type 0} ⦃f : Float F⦄ (r : Resolver Ip Addr) (builds : ℕ → Bool)
    (binds : Addr → Bool) (m : Machine) where
  -- Behind the address: `none` is the panic of `Sampler::new`.
  unfoldable pub main_at : Option Text → Cli → Settings F → Addr → Option ℕ → Exit × Tasks
  unfolding start_sampler start_hub hub_target serve finish
  main_at served args settings addr none = (panic, no_tasks)
  main_at served args settings addr (some interval) =
      let target = hub_target args.hub args.hub_key in
      let tasks : Tasks = record {
        sampler = start_sampler no_tasks.sampler;
        hub = start_hub args m target;
      } in
      finish served (serve r builds binds addr target settings) tasks

  unfoldable pub main : Bool → Option Text → Cli → Settings F → Exit × Tasks
  unfolding resolve_addr chosen_address chosen_port sampler_interval main_at
  main log_ok served args settings =
      let started =
        elim (resolve_addr r (chosen_address args settings) (chosen_port args settings))
          as (λ x. Exit × Tasks) [
            | none ↦ (returned_err, no_tasks)
            | some addr ↦
                main_at served args settings addr (sampler_interval f settings.ws_push_interval)
          ] in
      if not log_ok then (returned_err, no_tasks) else started
