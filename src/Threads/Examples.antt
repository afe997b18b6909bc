-- ===== src/Threads/Examples.antt =====
-- Short schedules.
use linux_unix_system_progra.Prelude.{◌+◌, ◌≡◌, ◌⊎◌, refl, some, none, ◌%◌}
use linux_unix_system_progra.Threads.Counter.{
  word, at_lock, at_load, at_add, at_store, at_unlock, Thread, thread, shared, step, State, state,
  Step, first_steps, Reachable, begin, then_step, begun, Returned,
}
use linux_unix_system_progra.Threads.Counter.Exclusion.{Returned-glob}
use linux_unix_system_progra.Threads.Counter.Progress.{Reachable-goes_on}
use linux_unix_system_progra.Threads.Counter.Atomic.{Runs, spec, view, Reachable-Runs}

abbrev idle : Thread
idle = thread at_lock 0 0

abbrev locked : State
locked = state (shared 0 (some 0)) (thread at_load 0 0) idle

abbrev ended : State
ended = state (shared 1 none) (thread at_lock 0 1) idle

first_lock : Step (begun 1 0 0 0) locked
unfolding step
first_lock =
    first_steps (shared 0 none) (shared 0 (some 0)) (thread at_lock 1 0) (thread at_load 0 0) idle
      refl

to_locked : Reachable (begun 1 0 0 0) locked
to_locked = then_step _ _ begin first_lock

to_ended : Reachable (begun 1 0 0 0) ended
unfolding step
to_ended =
    then_step _ _
      (then_step _ _
        (then_step _ _
          (then_step _ _ to_locked (
            first_steps (shared 0 (some 0)) (shared 0 (some 0)) (thread at_load 0 0)
              (thread at_add 0 0) idle refl))
          (first_steps (shared 0 (some 0)) (shared 0 (some 0)) (thread at_add 0 0)
            (thread at_store 0 1) idle refl))
        (first_steps (shared 0 (some 0)) (shared 1 (some 0)) (thread at_store 0 1)
          (thread at_unlock 0 1) idle refl))
      (first_steps (shared 1 (some 0)) (shared 1 none) (thread at_unlock 0 1) (thread at_lock 0 1)
        idle refl)

Returned-glob_example : 1 ≡ (1 + 0) % word
Returned-glob_example = Returned-glob 1 0 0 0 ended to_ended (refl, refl) (refl, refl)

Reachable-Runs_example : Runs (spec 0 1 0) (view ended)
Reachable-Runs_example = Reachable-Runs 1 0 0 0 ended to_ended

Reachable-goes_on_example :
    (Returned (thread at_load 0 0) × Returned idle) ⊎ ((y : State) × Step locked y)
Reachable-goes_on_example = Reachable-goes_on 1 0 0 0 locked to_locked
