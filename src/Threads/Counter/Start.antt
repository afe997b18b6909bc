-- ===== src/Threads/Counter/Start.antt =====
-- main of thread_incr_mutex.c and of thread_incr.c, which differ in the lines only; and what it shows.
use linux_unix_system_progra.Prelude.{ℕ, ◌≡◌, ℤ, Option, none, some, List, [], ◌∷◌, Text, bits_int}
use linux_unix_system_progra.Sys.{
  Kernel, Trace, ok, int, printf, thread_create, thread_join, load_glob, M, ◌>>=◌, ◌>>◌, call, exit,
  or_die,
}
use linux_unix_system_progra.Threads.Counter.{State, Reachable, begun, Returned, loops_of}

-- Both threads get a pointer to the number of rounds, which does not change.
unfoldable pub start_threads : M (Unit {0})
start_threads = do
  or_die "pthread_create\n" 1 (← call (thread_create 0))
  or_die "pthread_create2\n" 1 (← call (thread_create 1))
  or_die "pthread_join\n" 1 (← call (thread_join 0))
  or_die "pthread_join2\n" 1 (← call (thread_join 1))
  glob ← call load_glob
  call (printf "glob = %d\n" (int glob ∷ []))
  exit 0

unfoldable pub main : List Text → M (Unit {0})
unfolding start_threads
main argv = do loops ← loops_of argv; start_threads

-- The number in the line that was printed last.
unfoldable pub shown : Trace → Option ℤ
shown [] = none
shown ((printf _ (int z ∷ []), _) ∷ t) = some z
shown (_ ∷ t) = none

-- After two successful joins, `glob` is what some schedule of two threads with `n` rounds has left in
-- it when both have returned.
pub record Joins (k : Kernel) (n : ℕ) : Type 0 where
  pub loc : ℕ
  pub loc' : ℕ
  pub end_of : Trace → State
  pub way : (t : Trace) → Reachable (begun n n loc loc') (end_of t)
  pub both_returned : (t : Trace) → Returned (end_of t).first × Returned (end_of t).second
  pub loaded :
      (t : Trace)
      → k ((thread_join 1, ok tt) ∷ (thread_join 0, ok tt) ∷ t) load_glob
        ≡ bits_int (end_of t).globals.glob
