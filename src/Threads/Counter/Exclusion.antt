-- ===== src/Threads/Counter/Exclusion.antt =====
-- The mutex keeps the threads apart, and the count is right.
use linux_unix_system_progra.Prelude.{
  ℕ, suc, ◌+◌, ◌-◌, ◌%◌, ◌≤◌, ◌≡◌, Bool, true, false, Option, none, some, ◌⊎◌, arith,
}
use linux_unix_system_progra.Threads.Counter.{
  word, Pc, at_lock, at_load, at_add, at_store, at_unlock, Thread, Shared, thread, lock, step,
  State, Step, first_steps, second_steps, Reachable, begin, then_step, begun, Returned,
}

-- The thread is between lock and unlock.
abbrev pub inside : Pc → Bool
inside at_lock = false
inside _ = true

-- The additions that the thread has yet to make.
abbrev pub owing : Pc → ℕ → ℕ
owing at_lock n = n
owing at_unlock n = n
owing _ n = suc n

-- What `loc` is worth, where it will be used.
abbrev Fresh : ℕ → Pc → ℕ → Type 0
Fresh glob at_add loc = loc ≡ glob
Fresh glob at_store loc = loc ≡ (glob + 1) % word
Fresh glob _ loc = Unit

-- Who holds the mutex.
abbrev Holder : Option ℕ → ℕ → Bool → ℕ → Bool → Type 0
Holder mtx me in_me other in_other =
    ((mtx ≡ none) × (in_me ≡ false) × (in_other ≡ false))
    ⊎ ((mtx ≡ some me) × (in_me ≡ true) × (in_other ≡ false))
    ⊎ ((mtx ≡ some other) × (in_me ≡ false) × (in_other ≡ true))

module _ (total : ℕ) where
  abbrev pub Sound : ℕ → ℕ → Shared → Thread → Thread → Type 0
  Sound me other s x y =
      (s.glob ≡ (total - (owing x.pc x.left + owing y.pc y.left)) % word)
      × (owing x.pc x.left + owing y.pc y.left ≤ total)
      × Fresh s.glob x.pc x.loc
      × Fresh s.glob y.pc y.loc
      × Holder s.mtx me (inside x.pc) other (inside y.pc)

  pub Sound-swap :
      (me other : ℕ) (s : Shared) (x y : Thread) → Sound me other s x y → Sound other me s y x
  Sound-swap me other s x y (a, b, c, d, h) =
      (ground (arith, a), ground (arith, b), d, c, ground (arith, h))

  step-Sound :
      (me other : ℕ) (s : Shared) (pc : Pc) (left loc : ℕ) (y : Thread) (s' : Shared) (x' : Thread)
      → Sound me other s (thread pc left loc) y
      → step me s (thread pc left loc) ≡ some (s', x')
      → Sound me other s' x' y
  unfolding step lock
  step-Sound me other s at_lock left loc y s' x' i h = ground (arith, i, h)
  step-Sound me other s at_load left loc y s' x' i h = ground (arith, i, h)
  step-Sound me other s at_add left loc y s' x' i h = ground (arith, i, h)
  step-Sound me other s at_store left loc y s' x' i h = ground (arith, i, h)
  step-Sound me other s at_unlock left loc y s' x' i h = ground (arith, i, h)

abbrev pub Safe : ℕ → State → Type 0
Safe total x = Sound total 0 1 x.globals x.first x.second

Step-Safe : (total : ℕ) (x y : State) → Safe total x → Step x y → Safe total y
Step-Safe total x y i (first_steps s s' a a' b h) =
    step-Sound total 0 1 s a.pc a.left a.loc b s' a' i h
Step-Safe total x y i (second_steps s s' a b b' h) =
    Sound-swap total 1 0 s' b' a
      (step-Sound total 1 0 s b.pc b.left b.loc a s' b' (Sound-swap total 0 1 s a b i) h)

pub Reachable-Safe :
    (n m loc loc' : ℕ) (x : State) → Reachable (begun n m loc loc') x → Safe (n + m) x
Reachable-Safe n m loc loc' x begin = ground arith
Reachable-Safe n m loc loc' x (then_step y z r s) =
    Step-Safe (n + m) y z (Reachable-Safe n m loc loc' y r) s

module _ (n m loc loc' : ℕ) (x : State) (r : Reachable (begun n m loc loc') x) where
  -- In every schedule, when both threads have returned, `glob` is the sum of their loops, modulo
  -- 2 ^ 32: no addition is lost.
  pub Returned-glob : Returned x.first → Returned x.second → x.globals.glob ≡ (n + m) % word
  Returned-glob a b = let i = Reachable-Safe n m loc loc' x r in ground (arith, i, a, b)

  -- In every schedule, at no time are both threads between their lock and their unlock.
  pub inside-apart : (inside x.first.pc ≡ false) ⊎ (inside x.second.pc ≡ false)
  inside-apart = let i = Reachable-Safe n m loc loc' x r in ground (arith, i)
