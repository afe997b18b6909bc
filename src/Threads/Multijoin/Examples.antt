-- ===== src/Threads/Multijoin/Examples.antt =====
-- Two threads, none of which has ended.
use linux_unix_system_progra.Prelude.{◌+◌, ◌≡◌, ◌⊎◌, refl, []}
use linux_unix_system_progra.Sys.{exited, Trace, loop}
use linux_unix_system_progra.Sys.Sample.{sample, trace}
use linux_unix_system_progra.Threads.Multijoin.{reap, reap_round, reap_from, reap_one}
use linux_unix_system_progra.Threads.Multijoin.Reaping.{
  joins, looked_at, in_turn, found, marked, locks, reap-Ended,
}

abbrev u : Trace
u = trace (reap 2 2 sample [])

reap-Ended_example :
    (exited 0 ≡ exited 1)
    ⊎ ((exited 0 ≡ exited 0)
        × (joins u ≡ found u)
        × (looked_at u ≡ in_turn 0 2 (looked_at []))
        × (marked u ≡ in_turn 0 2 (marked []))
        × (locks u ≡ locks [] + 1))
unfolding reap reap_round reap_from reap_one loop joins found
reap-Ended_example = reap-Ended sample 0 1 [] u (exited 0) refl refl
