-- ===== src/Threads.antt =====
-- TLPI/chapter30/thread_incr.c and thread_incr_mutex.c: two threads that count in one variable.
-- TLPI/chapter30/thread_multijoin.c and TLPI/chapter32/thread_cleanup.c: threads that main waits for.
mod Examples
pub mod Counter
pub mod Race
pub mod Multijoin
pub mod Cleanup
