-- ===== src/Threads/Cleanup/Examples.antt =====
-- A thread that is canceled in its first wait.
use linux_unix_system_progra.Prelude.{◌≡◌, refl, pos, [], false, true}
use linux_unix_system_progra.Sys.{Kernel, Trace, ok, load_glob, cond_wait_or_cancel, loop}
use linux_unix_system_progra.Sys.Sample.{sample, trace}
use linux_unix_system_progra.Threads.Cleanup.{thread_func, wait_round, clean_handler}
use linux_unix_system_progra.Threads.Cleanup.Balance.{
  blocks, freed, locked, unlocked, thread_func-balance,
}

abbrev kernel : Kernel
kernel t load_glob = pos 0
kernel t cond_wait_or_cancel = ok false
kernel t c = sample t c

abbrev u : Trace
u = trace (thread_func 1 kernel [])

thread_func-balance_example : (blocks u ≡ freed u) × (locked u ≡ unlocked u)
unfolding thread_func wait_round clean_handler loop blocks freed locked unlocked
thread_func-balance_example = thread_func-balance kernel 1 [] u true refl refl refl
