-- ===== src/Threads/Counter.antt =====
-- TLPI/chapter30/thread_incr_mutex.c: both threads add 1 to `glob` under a mutex, `loops` times.
pub mod Exclusion
pub mod Atomic
pub mod Progress
pub mod Start
mod Examples
use linux_unix_system_progra.Prelude.{
  ℕ, zero, suc, ◌+◌, ◌%◌, ◌≡◌, ◌⊎◌, ℤ, pos, negsuc, Bool, true, false, Option, none, some, List,
  Text, ltb, if◌then◌else◌, length, atoi,
}
use linux_unix_system_progra.Sys.{M, ◌>>=◌, pure, arg}

-- `glob` and `loc` are `int`s, kept as bit patterns.
abbrev pub word : ℕ
word = 4294967296

-- The next statement of threadFunc. `at_lock` is the head of the loop, too.
pub data Pc : Type 0 where
  at_lock at_load at_add at_store at_unlock : Pc

-- A thread, with the rounds that it begins after the present one.
pub record Thread : Type 0 where
  pub pc : Pc
  pub left : ℕ
  pub loc : ℕ

-- `glob`, and the thread that holds `mtx`.
pub record Shared : Type 0 where
  pub glob : ℕ
  pub mtx : Option ℕ

abbrev pub thread : Pc → ℕ → ℕ → Thread
thread pc left loc = record { pc = pc; left = left; loc = loc }

abbrev pub shared : ℕ → Option ℕ → Shared
shared glob mtx = record { glob = glob; mtx = mtx }

pub lock : ℕ → ℕ → ℕ → ℕ → Option ℕ → Option (Shared × Thread)
lock id n loc glob none = some (shared glob (some id), thread at_load n loc)
lock id n loc glob (some holder) = none

-- One statement of thread `id`; none if it waits for the mutex or has returned.
unfoldable pub step : ℕ → Shared → Thread → Option (Shared × Thread)
unfolding lock
step id s th = run th.pc th.left
  where
    run : Pc → ℕ → Option (Shared × Thread)
    run at_lock zero = none
    run at_lock (suc n) = lock id n th.loc s.glob s.mtx
    run at_load n = some (s, thread at_add n s.glob)
    run at_add n = some (s, thread at_store n ((th.loc + 1) % word))
    run at_store n = some (shared th.loc s.mtx, thread at_unlock n th.loc)
    run at_unlock n = some (shared s.glob none, thread at_lock n th.loc)

pub record State : Type 0 where
  pub globals : Shared
  pub first : Thread
  pub second : Thread

abbrev pub state : Shared → Thread → Thread → State
state s a b = record { globals = s; first = a; second = b }

-- The scheduler lets either thread go on.
pub data Step : State → State → Type 0 where
  first_steps :
      (s s' : Shared) (a a' b : Thread)
      → step 0 s a ≡ some (s', a')
      → Step (state s a b) (state s' a' b)
  second_steps :
      (s s' : Shared) (a b b' : Thread)
      → step 1 s b ≡ some (s', b')
      → Step (state s a b) (state s' a b')

-- The states that some schedule leads to.
pub data Reachable (start : State) : State → Type 0 where
  begin : Reachable start start
  then_step : (x y : State) → Reachable start x → Step x y → Reachable start y

-- Both threads were created, with these numbers of rounds and any garbage in `loc`.
abbrev pub begun : ℕ → ℕ → ℕ → ℕ → State
begun n m loc loc' = state (shared 0 none) (thread at_lock n loc) (thread at_lock m loc')

abbrev pub Returned : Thread → Type 0
Returned a = (a.pc ≡ at_lock) × (a.left ≡ 0)

-- How often `j < loops` holds, for j from 0.
abbrev pub rounds : ℤ → ℕ
rounds (pos n) = n
rounds (negsuc n) = 0

-- The number of rounds that main passes to the threads: with an argument it looks at the second.
pub loops_of : List Text → M ℤ
loops_of argv =
    if ltb 1 (length argv)
    then (do second ← arg argv 2; pure (atoi second))
    else pure (pos 10000000)
