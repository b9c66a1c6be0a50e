-- ===== src/Main/Signals.antt =====
-- main.rs: `wait_for_signal`. The signals are those that reach the process, in their order.
use vigil_collector.Prelude.{Bool, true, ◌&&◌, Option, none, some, List, [], ◌∷◌, if◌then◌else◌}
use vigil_collector.Target.{Target, is_unix}

pub data Signal : Type 0 where
  interrupt terminate : Signal

-- Whether a signal ends the wait: SIGTERM does where its handler is installed.
unfoldable pub wakes : Target → Bool → Signal → Bool
wakes target installed interrupt = true
wakes target installed terminate = is_unix target && installed

-- The signals behind the one that ended the wait; `none` while it goes on. `ctrl_c` ends at once where
-- its handler cannot be installed.
unfoldable pub wait_for_signal : Target → Bool → Bool → List Signal → Option (List Signal)
unfolding wakes
wait_for_signal target ctrl_c_fails installed [] = if ctrl_c_fails then some [] else none
wait_for_signal target ctrl_c_fails installed (s ∷ more) =
    let later = wait_for_signal target ctrl_c_fails installed more in
    if ctrl_c_fails then some (s ∷ more) else if wakes target installed s then some more else later
