-- ===== src/Threads/Counter/Progress.antt =====
-- Some thread can always go on, and a schedule ends.
use linux_unix_system_progra.Prelude.{
  ℕ, zero, suc, ◌+◌, ◌*◌, ◌≡◌, refl, true, false, none, some, ◌⊎◌, inl, inr, arith,
}
use linux_unix_system_progra.Threads.Counter.{
  Pc, at_lock, at_load, at_add, at_store, at_unlock, Thread, Shared, thread, shared, lock, step,
  State, Step, first_steps, second_steps, Reachable, begun, Returned,
}
use linux_unix_system_progra.Threads.Counter.Exclusion.{inside, Reachable-Safe}

-- The statements that a thread has before it.
abbrev ahead : Pc → ℕ → ℕ
ahead at_lock n = 5 * n
ahead at_load n = 5 * n + 4
ahead at_add n = 5 * n + 3
ahead at_store n = 5 * n + 2
ahead at_unlock n = 5 * n + 1

abbrev pub work : State → ℕ
work x = ahead x.first.pc x.first.left + ahead x.second.pc x.second.left

step-ahead :
    (me : ℕ) (s : Shared) (pc : Pc) (left loc : ℕ) (s' : Shared) (x' : Thread)
    → step me s (thread pc left loc) ≡ some (s', x')
    → ahead pc left ≡ suc (ahead x'.pc x'.left)
unfolding step lock
step-ahead me s at_lock left loc s' x' h = ground arith
step-ahead me s at_load left loc s' x' h = ground arith
step-ahead me s at_add left loc s' x' h = ground arith
step-ahead me s at_store left loc s' x' h = ground arith
step-ahead me s at_unlock left loc s' x' h = ground arith

-- Each statement that a thread executes leaves one fewer, so that every schedule ends.
pub Step-work : (x y : State) → Step x y → work x ≡ suc (work y)
Step-work x y (first_steps s s' a a' b h) = omega (arith, step-ahead 0 s a.pc a.left a.loc s' a' h)
Step-work x y (second_steps s s' a b b' h) = omega (arith, step-ahead 1 s b.pc b.left b.loc s' b' h)

-- A thread inside goes on, and so does one outside with work if the mutex is free.
step-inside :
    (me : ℕ) (s : Shared) (pc : Pc) (left loc : ℕ)
    → inside pc ≡ true
    → (s' : Shared) × (x' : Thread) × (step me s (thread pc left loc) ≡ some (s', x'))
unfolding step
step-inside me s at_lock left loc h = ground (arith, h)
step-inside me s at_load left loc h = (_, _, refl)
step-inside me s at_add left loc h = (_, _, refl)
step-inside me s at_store left loc h = (_, _, refl)
step-inside me s at_unlock left loc h = (_, _, refl)

step-free :
    (me : ℕ) (s : Shared) (pc : Pc) (left loc : ℕ)
    → s.mtx ≡ none
    → inside pc ≡ false
    → ((pc ≡ at_lock) × (left ≡ 0))
      ⊎ ((s' : Shared) × (x' : Thread) × (step me s (thread pc left loc) ≡ some (s', x')))
unfolding step lock
step-free me s at_lock zero loc f h = inl (refl, refl)
step-free me s at_lock (suc n) loc f h = inr (shared s.glob (some me), thread at_load n loc, rw f)
step-free me s at_load left loc f h = ground (arith, h)
step-free me s at_add left loc f h = ground (arith, h)
step-free me s at_store left loc f h = ground (arith, h)
step-free me s at_unlock left loc f h = ground (arith, h)

-- In every state that a schedule leads to, both threads have returned, or one of them can go on: the
-- threads cannot block each other for ever.
pub Reachable-goes_on :
    (n m loc loc' : ℕ) (x : State)
    → Reachable (begun n m loc loc') x
    → (Returned x.first × Returned x.second) ⊎ ((y : State) × Step x y)
Reachable-goes_on n m loc loc' x r = elim (Reachable-Safe n m loc loc' x r).4 [
  | inl (free, a, b) ↦ elim (step-free 0 x.globals x.first.pc x.first.left x.first.loc free a) [
    | inr (s', a', h) ↦ inr (_, first_steps x.globals s' x.first a' x.second h)
    | inl done_a ↦ elim (step-free 1 x.globals x.second.pc x.second.left x.second.loc free b) [
      | inr (s', b', h) ↦ inr (_, second_steps x.globals s' x.first x.second b' h)
      | inl done_b ↦ inl (done_a, done_b)
    ]
  ]
  | inr (inl (held, a, b)) ↦
      let (s', a', h) = step-inside 0 x.globals x.first.pc x.first.left x.first.loc a in
      inr (_, first_steps x.globals s' x.first a' x.second h)
  | inr (inr (held, a, b)) ↦
      let (s', b', h) = step-inside 1 x.globals x.second.pc x.second.left x.second.loc b in
      inr (_, second_steps x.globals s' x.first x.second b' h)
]
