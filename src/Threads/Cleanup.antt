-- ===== src/Threads/Cleanup.antt =====
-- TLPI/chapter32/thread_cleanup.c: a thread that waits for a condition and may be canceled there.
pub mod Balance
mod Examples
use linux_unix_system_progra.Prelude.{
  ℕ, ◌^◌, ◌==◌, ℤ, pos, Bool, true, false, List, [], ◌∷◌, Text, length, if◌then◌else◌, int_eq,
}
use linux_unix_system_progra.Sys.{
  Reply, ok, fail, malloc, mutex_lock, mutex_unlock, load_glob, set_glob, free_block,
  cond_wait_or_cancel, cond_signal, cancel_thread, join_result, thread_create, sleep, M, ◌>>=◌,
  ◌>>◌, pure, call, exit, say, die, or_die, Round, next, leave, loop,
}

-- The address in the message is left out.
pub clean_handler : M (Unit {0})
clean_handler = do
  say "cleanup: freeing block at %p\n"
  call free_block
  say "cleanup: unlocking mutex\n"
  or_die "pthread_mutex_unlock\n" 1 (← call mutex_unlock)

-- The loop is left when `glob` is set (true), or when the thread is canceled in the wait (false), which
-- takes the mutex again before the handler runs.
abbrev pub woken : Bool → Round (Unit {0}) Bool
woken true = next tt
woken false = leave false

unfoldable pub wait_round : Unit {0} → M (Round (Unit {0}) Bool)
wait_round _ = do
  glob ← call load_glob
  if int_eq glob (pos 0)
      then (do
        by_signal ← or_die "pthread_cond_wait\n" 1 (← call cond_wait_or_cancel)
        pure (woken by_signal))
      else pure (leave true)

-- Either way the handler runs; the result is whether the thread was canceled.
abbrev pub leave_thread : Bool → M Bool
leave_thread true = do say "thread: condition wait loop completed\n"; clean_handler; pure false
leave_thread false = do clean_handler; pure true

-- The result of malloc is not checked.
pub thread_func : ℕ → M Bool
unfolding wait_round clean_handler
thread_func fuel = do
  call (malloc (2 ^ 16))
  say "thread: allocated memory at %p\n"
  or_die "pthread_mutex_lock\n" 1 (← call mutex_lock)
  finished ← loop fuel wait_round tt
  leave_thread finished

abbrev stop_thread : ℕ → M (Unit {0})
stop_thread argc =
    if argc == 1
    then (do
      say "main: about to cancel thread\n"
      or_die "pthread_cancel\n" 1 (← call cancel_thread))
    else (do
      say "main: about to signal condition variable\n"
      call (set_glob (pos 1))
      call cond_signal
      pure tt)

abbrev verdict : Bool → M (Unit {0})
verdict true = say "main: thread was canceled\n"
verdict false = say "main: thread terminated normally\n"

-- `glob` is set without the mutex, and the result of the signal is not looked at: the test after it is
-- on the earlier result.
unfoldable pub main : ℕ → M (Unit {0})
main argc = do
  or_die "pthread_create\n" 1 (← call (thread_create 0))
  call (sleep (pos 2))
  stop_thread argc
  canceled ← or_die "pthread_join\n" 1 (← call join_result)
  verdict canceled
  exit 0
