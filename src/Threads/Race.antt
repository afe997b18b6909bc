-- ===== src/Threads/Race.antt =====
-- TLPI/chapter30/thread_incr.c: the same without a mutex.
use linux_unix_system_progra.Prelude.{
  ℕ, zero, suc, ◌+◌, ◌%◌, ◌<◌, ◌≡◌, refl, subst, Option, none, some, List, Text, arith,
}
use linux_unix_system_progra.Sys.{M}
use linux_unix_system_progra.Threads.Counter.{word}
use linux_unix_system_progra.Threads.Counter.Start

-- The next statement of threadFunc; `at_load` is the head of the loop, too.
pub data Pc : Type 0 where
  at_load at_add at_store : Pc

-- A thread, with the rounds that it begins after the present one.
pub record Thread : Type 0 where
  pub pc : Pc
  pub left : ℕ
  pub loc : ℕ

abbrev pub thread : Pc → ℕ → ℕ → Thread
thread pc left loc = record { pc = pc; left = left; loc = loc }

-- One statement, with `glob`; none if the thread has returned.
pub step : ℕ → Thread → Option (ℕ × Thread)
step glob th = run th.pc th.left
  where
    run : Pc → ℕ → Option (ℕ × Thread)
    run at_load zero = none
    run at_load (suc n) = some (glob, thread at_add n glob)
    run at_add n = some (glob, thread at_store n ((th.loc + 1) % word))
    run at_store n = some (th.loc, thread at_load n th.loc)

-- The main function is that of thread_incr_mutex.c, word for word.
pub main : List Text → M (Unit {0})
main argv = Start.main argv

-- The states that some schedule leads to.
pub data Reachable : (glob : ℕ) (a b : Thread) → (glob' : ℕ) (a' b' : Thread) → Type 0 where
  here : (g : ℕ) (a b : Thread) → Reachable g a b g a b
  first_steps :
      (g g' g'' : ℕ) (a a' a'' b b'' : Thread)
      → step g a ≡ some (g', a')
      → Reachable g' a' b g'' a'' b''
      → Reachable g a b g'' a'' b''
  second_steps :
      (g g' g'' : ℕ) (a a'' b b' b'' : Thread)
      → step g b ≡ some (g', b')
      → Reachable g' a b' g'' a'' b''
      → Reachable g a b g'' a'' b''

-- One round of both: both load before either stores, so that the two additions count once.
round :
    (g c d n g'' : ℕ) (a'' b'' : Thread)
    → Reachable
        ((g + 1) % word)
        (thread at_load n ((g + 1) % word))
        (thread at_load n ((g + 1) % word))
        g''
        a''
        b''
    → Reachable g (thread at_load (suc n) c) (thread at_load (suc n) d) g'' a'' b''
unfolding step
round g c d n g'' a'' b'' rest =
    let w = (g + 1) % word in
    first_steps g g g'' _ (thread at_add n g) a'' _ b'' refl (
      second_steps g g g'' _ a'' _ (thread at_add n g) b'' refl (
        first_steps g g g'' _ (thread at_store n w) a'' _ b'' refl (
          second_steps g g g'' _ a'' _ (thread at_store n w) b'' refl (
            first_steps g w g'' _ (thread at_load n w) a'' _ b'' refl
              (second_steps w w g'' _ a'' _ (thread at_load n w) b'' refl rest)))))

-- Without the mutex, additions get lost: from threads with `n` rounds each there is a schedule after
-- which both have returned and `glob` has grown by `n` only, modulo 2 ^ 32, and not by `2 * n`.
pub lockstep-Reachable :
    (n g c d : ℕ)
    → g < word
    → (e : ℕ) × (f : ℕ) × Reachable g
        (thread at_load n c)
        (thread at_load n d)
        ((g + n) % word)
        (thread at_load 0 e)
        (thread at_load 0 f)
lockstep-Reachable zero g c d lt = (
  c,
  d,
  subst
      (λ h.
        Reachable g (thread at_load 0 c) (thread at_load 0 d) h (thread at_load 0 c)
          (thread at_load 0 d))
      (omega (arith, lt)) (here g (thread at_load 0 c) (thread at_load 0 d)),
)
lockstep-Reachable (suc n) g c d lt =
    let w = (g + 1) % word in
    let (e, f, r) = lockstep-Reachable n w w w (omega arith) in
    let total : (w + n) % word ≡ (g + suc n) % word = omega arith in
    (
      e,
      f,
      subst
          (λ h.
            Reachable g (thread at_load (suc n) c) (thread at_load (suc n) d) h (thread at_load 0 e)
              (thread at_load 0 f))
          total (round g c d n ((w + n) % word) (thread at_load 0 e) (thread at_load 0 f) r),
    )
