-- ===== src/Sampler/Tests.antt =====
-- Runs of the sampler, and its theorems at concrete sources: the world is a number.
use vigil_collector.Prelude.{
  ◌≡◌, refl, ◌≢◌, false, none, some, [], ◌∷◌, arith, get_elem?, take, All,
}
use vigil_collector.Text.{codes}
use vigil_collector.Float.Millis.{Millis, millis_float}
use vigil_collector.Sampler.State.{new_state, refreshes}
use vigil_collector.Sampler.Loop.{
  Shared, publish_snapshot, stopped, ticked, failed, round, rounds, start, Sampler, start_sampler,
  stop_sampler, sampler_interval,
}
use vigil_collector.Sampler.Cadence.{Shows, scan_cycle}
use vigil_collector.Sampler.Stores.{store_all, stores, IsAmong, stores-IsAmong}
use vigil_collector.Snapshot.{Snapshot, default_snapshot}
use vigil_collector.Sampler.Example.{named_process, sources, encoder, encoder-IsTotal, fresh}
use vigil_collector.Sampler.Safety.{IsSound, started-IsSound, sampler_survives}

-- The seventh snapshot shows the scan of the sixth tick.
scans_every_five :
    get_elem? (refreshes sources (1 ∷ 2 ∷ 3 ∷ 4 ∷ 5 ∷ 6 ∷ 7 ∷ []) (new_state sources 0)).1 6
    ≡ get_elem? (refreshes sources (1 ∷ 1 ∷ 1 ∷ 1 ∷ 1 ∷ 6 ∷ 6 ∷ []) (new_state sources 0)).1 6
unfolding refreshes new_state
scans_every_five = refl

scan_cycle_example :
    All
      (Shows sources (named_process 8 ∷ []) (codes "rss") [])
      (refreshes sources (8 ∷ 9 ∷ []) (new_state sources 0)).1
    × ((refreshes sources (8 ∷ 9 ∷ []) (new_state sources 0)).0.tick ≡ 2)
unfolding new_state
scan_cycle_example =
    scan_cycle sources 8 (9 ∷ []) (new_state sources 0) refl (omega arith) (omega arith)

started-IsSound_example : IsSound sources encoder (
    rounds sources encoder
      (ticked 1 ∷ failed 2 ∷ ticked 3 ∷ stopped ∷ [])
      (start sources encoder 0 fresh))
started-IsSound_example =
    started-IsSound sources encoder encoder-IsTotal 0 fresh
      (ticked 1 ∷ failed 2 ∷ ticked 3 ∷ stopped ∷ [])

sampler_survives_example :
    let t = rounds sources encoder (failed 1 ∷ ticked 2 ∷ []) (start sources encoder 0 fresh) in
    (t.state ≢ none)
    × (t.done ≡ false)
    × (t.panicked ≡ false)
    × ((round sources encoder (failed 3) t).shared ≡ t.shared)
sampler_survives_example =
    sampler_survives sources encoder 0 fresh (failed 1 ∷ ticked 2 ∷ []) 3
      ((λ e. cc), ((λ e. cc), tt))

abbrev idle_sampler : Sampler
idle_sampler = record { handle = false; spawned = 0; running = 0 }

second_start_is_ignored : (start_sampler (start_sampler idle_sampler)).spawned ≡ 1
unfolding start_sampler
second_start_is_ignored = refl

restart_after_stop : (start_sampler (stop_sampler (start_sampler idle_sampler))).spawned ≡ 2
unfolding start_sampler stop_sampler
restart_after_stop = refl

raised_interval : sampler_interval millis_float (some 0) ≡ some 100000000
unfolding sampler_interval
raised_interval = refl

abbrev seven : Snapshot Millis
seven = record default_snapshot { processes = named_process 7 ∷ [] }

abbrev published : Shared Millis
published = publish_snapshot encoder default_snapshot fresh

-- Two stores of the second snapshot are done.
stores-IsAmong_example :
    IsAmong encoder default_snapshot
      (seven ∷ default_snapshot ∷ [])
      (store_all encoder (take 6 (stores (seven ∷ default_snapshot ∷ []))) published)
unfolding publish_snapshot
stores-IsAmong_example =
    stores-IsAmong encoder encoder-IsTotal default_snapshot (seven ∷ default_snapshot ∷ [])
      published 6 (record { http = refl; ws = refl; net = refl; slot_is = refl })
