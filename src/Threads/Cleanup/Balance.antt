-- ===== src/Threads/Cleanup/Balance.antt =====
-- What the thread leaves behind.
use linux_unix_system_progra.Prelude.{ℕ, ◌+◌, ◌≡◌, Bool, [], ◌∷◌, arith}
use linux_unix_system_progra.Sys.{
  Trace, Kernel, ok, done, malloc, mutex_lock, mutex_unlock, free_block, Round, loop, Held, next,
  leave, loop_done, bind_done, Reply, fail, or_die, ◌>>=◌, and_then, printf,
}
use linux_unix_system_progra.Threads.Cleanup.{clean_handler, wait_round, leave_thread, thread_func}

-- Blocks asked for and freed, and the times that the mutex was taken and given back by name.
unfoldable pub blocks : Trace → ℕ
blocks [] = 0
blocks ((malloc _, _) ∷ t) = blocks t + 1
blocks (_ ∷ t) = blocks t

unfoldable pub freed : Trace → ℕ
freed [] = 0
freed ((free_block, _) ∷ t) = freed t + 1
freed (_ ∷ t) = freed t

unfoldable pub locked : Trace → ℕ
locked [] = 0
locked ((mutex_lock, ok _) ∷ t) = locked t + 1
locked (_ ∷ t) = locked t

unfoldable pub unlocked : Trace → ℕ
unlocked [] = 0
unlocked ((mutex_unlock, ok _) ∷ t) = unlocked t + 1
unlocked (_ ∷ t) = unlocked t

-- The thread owes one block and one mutex.
abbrev Owes : ℕ → Trace → Type 0
Owes n t = (blocks t ≡ freed t + n) × (locked t ≡ unlocked t + n)

module _ (k : Kernel) where
  Held-Owes :
      (n : ℕ) (r : Round (Unit {0}) Bool) (u : Trace)
      → Owes n u
      → Held (λ _. Owes n) (λ _. Owes n) r u
  Held-Owes n (next s) u p = p
  Held-Owes n (leave b) u p = p

  round-Owes :
      (s : Unit {0}) (t u : Trace) (r : Round (Unit {0}) Bool)
      → Owes 1 t
      → wait_round s k t ≡ done r u
      → Owes 1 u
  unfolding wait_round blocks freed locked unlocked
  round-Owes s t u r p h = ground (arith, p)

  leave-Owes :
      (b canceled : Bool) (t u : Trace) → Owes 1 t → leave_thread b k t ≡ done canceled u → Owes 0 u
  unfolding clean_handler blocks freed locked unlocked
  leave-Owes b canceled t u p h = ground (arith, p)

  wait-Owes :
      (fuel : ℕ) (t u : Trace) (canceled : Bool)
      → Owes 1 t
      → (loop fuel wait_round tt >>= leave_thread) k t ≡ done canceled u
      → Owes 0 u
  wait-Owes fuel t u canceled p h =
      let (b, v, g, f) = bind_done (loop fuel wait_round tt) leave_thread k t h in
      leave-Owes b canceled v u
        (loop_done wait_round k (λ _. Owes 1) (λ _. Owes 1)
          (λ s t u r p g. Held-Owes 1 r u (round-Owes s t u r p g)) fuel tt t v b p g)
        f

  lock-Owes :
      (fuel : ℕ) (t u : Trace) (canceled : Bool) (x : Reply (Unit {0}))
      → blocks t ≡ freed t + 1
      → locked t ≡ unlocked t
      → and_then
          (or_die "pthread_mutex_lock\n" 1 x k ((mutex_lock, x) ∷ t))
          (λ _. loop fuel wait_round tt >>= leave_thread)
          k
        ≡ done canceled u
      → Owes 0 u
  unfolding blocks freed locked unlocked
  lock-Owes fuel t u canceled (fail e) p q h = ground arith
  lock-Owes fuel t u canceled (ok x) p q h =
      wait-Owes fuel ((mutex_lock, ok x) ∷ t) u canceled (p, ground (arith, q)) h

  -- If every block was freed and the mutex given back before, then when the thread has ended, by itself
  -- or because it was canceled in the wait, every block is freed and the mutex given back again.
  pub thread_func-balance :
      (fuel : ℕ) (t u : Trace) (canceled : Bool)
      → blocks t ≡ freed t
      → locked t ≡ unlocked t
      → thread_func fuel k t ≡ done canceled u
      → (blocks u ≡ freed u) × (locked u ≡ unlocked u)
  unfolding thread_func blocks freed locked unlocked
  thread_func-balance fuel t u canceled p q h =
      let two : Trace =
        (printf "thread: allocated memory at %p\n" [], tt)
        ∷ (malloc 65536, k t (malloc 65536))
        ∷ t in
      let (a, b) = lock-Owes fuel two u canceled (k two mutex_lock) (ground (arith, p)) q h in
      (omega (arith, a), omega (arith, b))
