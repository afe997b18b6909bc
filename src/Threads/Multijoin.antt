-- ===== src/Threads/Multijoin.antt =====
-- TLPI/chapter30/thread_multijoin.c: is to join each thread when it has ended.
mod Examples
pub mod Reaping
use linux_unix_system_progra.Prelude.{
  ℕ, zero, suc, ◌+◌, ◌-◌, ◌*◌, ℤ, pos, negsuc, Bool, true, false, List, [], ◌∷◌, Text, codes,
  text_eq, ltb, length, if◌then◌else◌, atoi,
}
use linux_unix_system_progra.Sys.{
  Reply, ok, fail, ThreadState, ts_alive, ts_terminated, ts_joined, num, str, printf, malloc,
  thread_create, thread_join, mutex_lock, mutex_unlock, cond_signal, sleep, load_arg, load_state,
  store_state, load_sleep_time, store_sleep_time, add_unjoined, M, ◌>>=◌, ◌>>◌, pure, call, exit,
  die, or_die, arg, Round, next, leave, loop,
}

-- The argument points to the variable `idx` of main, so that its value is that of the moment.
unfoldable pub thread_func : M (Unit {0})
thread_func = do
  idx ← call load_arg
  secs ← call (load_sleep_time idx)
  call (sleep secs)
  call (printf "Thread %d terminating\n" (num idx ∷ []))
  or_die "pthread_mutex_lock\n" 1 (← call mutex_lock)
  call (add_unjoined (pos 1))
  call (store_state idx ts_terminated)
  or_die "pthread_mutex_unlock\n" 1 (← call mutex_unlock)
  or_die "pthread_cond_signal\n" 1 (← call cond_signal)

abbrev allocate : Bool → M (Unit {0})
allocate true = pure tt
allocate false = die "calloc\n" 1

-- The loop that creates the threads, from `idx` on.
pub create_from : ℕ → List Text → M (Unit {0})
create_from idx [] = pure tt
create_from idx (secs ∷ more) = do
  call (store_sleep_time idx (atoi secs))
  call (store_state idx ts_alive)
  or_die "pthread_create\n" 1 (← call (thread_create idx))
  create_from (suc idx) more

abbrev pub join_ended : ℕ → ThreadState → M (Unit {0})
join_ended idx ts_terminated = do or_die "pthread_join\n" 1 (← call (thread_join idx))
join_ended idx _ = pure tt

-- One round of the inner loop: the result is `numLive`. The thread is marked and counted, whatever its
-- state is.
pub reap_one : ℕ → ℕ → M ℕ
reap_one idx num_live = do
  state ← call (load_state idx)
  join_ended idx state
  call (store_state idx ts_joined)
  call (add_unjoined (negsuc 0))
  call (printf "Reaped thread %d (numLive=%d)\n" (num idx ∷ num (num_live - 1) ∷ []))
  pure (num_live - 1)

-- The inner loop, for this many threads from `idx` on.
pub reap_from : ℕ → ℕ → ℕ → M ℕ
unfolding reap_one
reap_from idx zero num_live = pure num_live
reap_from idx (suc n) num_live = do num_live ← reap_one idx num_live; reap_from (suc idx) n num_live

-- The mutex is taken in every round and not given back. The loop that waits for the condition has the
-- condition `numLive == 0`, which does not hold there.
unfoldable pub reap_round : ℕ → ℕ → M (Round ℕ (Unit {0}))
unfolding reap_from
reap_round tot_threads zero = pure (leave tt)
reap_round tot_threads (suc n) = do
  or_die "pthread_mutex_lock\n" 1 (← call mutex_lock)
  num_live ← reap_from 0 tot_threads (suc n)
  pure (next num_live)

pub reap : ℕ → ℕ → M (Unit {0})
unfolding reap_round
reap fuel tot_threads = do
  loop fuel (reap_round tot_threads) tot_threads
  or_die "pthread_mutex_unlock\n" 1 (← call mutex_unlock)
  exit 0

abbrev pub wants_help : List Text → Bool
wants_help [] = true
wants_help (secs ∷ _) = text_eq secs (codes "--help")

-- `secs` is argv from 1 on. An entry of `thread` takes 16 bytes.
unfoldable pub main : ℕ → Text → List Text → M (Unit {0})
unfolding reap create_from
main fuel prog_name secs =
    if wants_help secs
    then (do call (printf "%s num-secs...\n" (str prog_name ∷ [])); exit 1)
    else (do
      allocate (← call (malloc (length secs * 16)))
      create_from 0 secs
      reap fuel (length secs))
