-- ===== src/Threads/Counter/Examples.antt =====
-- Two threads with one round each, one after the other, and main.
use linux_unix_system_progra.Prelude.{refl, pos, some, none, List, [], ◌∷◌, Text, codes}
use linux_unix_system_progra.Sys.{Kernel, Trace, load_glob}
use linux_unix_system_progra.Sys.Sample.{sample, trace}
use linux_unix_system_progra.Threads.Counter.{
  at_lock, at_load, at_add, at_store, at_unlock, thread, shared, step, State, state, first_steps,
  second_steps, Reachable, begin, then_step, begun,
}
use linux_unix_system_progra.Threads.Counter.Start.{main, Joins}

abbrev half : State
half = state (shared 1 none) (thread at_lock 0 1) (thread at_lock 1 0)

abbrev ended : State
ended = state (shared 2 none) (thread at_lock 0 1) (thread at_lock 0 2)

to_half : Reachable (begun 1 1 0 0) half
unfolding step
to_half =
    let b = thread at_lock 1 0 in
    then_step _ _
      (then_step _ _
        (then_step _ _
          (then_step _ _
            (then_step _ _ begin (
              first_steps (shared 0 none) (shared 0 (some 0)) (thread at_lock 1 0)
                (thread at_load 0 0) b refl))
            (first_steps (shared 0 (some 0)) (shared 0 (some 0)) (thread at_load 0 0)
              (thread at_add 0 0) b refl))
          (first_steps (shared 0 (some 0)) (shared 0 (some 0)) (thread at_add 0 0)
            (thread at_store 0 1) b refl))
        (first_steps (shared 0 (some 0)) (shared 1 (some 0)) (thread at_store 0 1)
          (thread at_unlock 0 1) b refl))
      (first_steps (shared 1 (some 0)) (shared 1 none) (thread at_unlock 0 1) (thread at_lock 0 1) b
        refl)

to_ended : Reachable (begun 1 1 0 0) ended
unfolding step
to_ended =
    let a = thread at_lock 0 1 in
    then_step _ _
      (then_step _ _
        (then_step _ _
          (then_step _ _
            (then_step _ _ to_half (
              second_steps (shared 1 none) (shared 1 (some 1)) a (thread at_lock 1 0)
                (thread at_load 0 0) refl))
            (second_steps (shared 1 (some 1)) (shared 1 (some 1)) a (thread at_load 0 0)
              (thread at_add 0 1) refl))
          (second_steps (shared 1 (some 1)) (shared 1 (some 1)) a (thread at_add 0 1)
            (thread at_store 0 2) refl))
        (second_steps (shared 1 (some 1)) (shared 2 (some 1)) a (thread at_store 0 2)
          (thread at_unlock 0 2) refl))
      (second_steps (shared 2 (some 1)) (shared 2 none) a (thread at_unlock 0 2)
        (thread at_lock 0 2) refl)

abbrev kernel : Kernel
kernel t load_glob = pos 2
kernel t c = sample t c

joins : Joins kernel 1
joins = record {
  loc = 0;
  loc' = 0;
  end_of = λ t. ended;
  way = λ t. to_ended;
  both_returned = λ t. ((refl, refl), (refl, refl));
  loaded = λ t. refl;
}

abbrev argv : List Text
argv = codes "p" ∷ codes "" ∷ codes "1" ∷ []

abbrev u : Trace
u = trace (main argv kernel [])
