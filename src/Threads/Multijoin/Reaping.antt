-- ===== src/Threads/Multijoin/Reaping.antt =====
-- What main of thread_multijoin.c does with its threads.
use linux_unix_system_progra.Prelude.{
  ℕ, zero, suc, ◌+◌, ◌-◌, ◌≡◌, ◌⊎◌, inl, inr, ap, ◌∙◌, subst, List, [], ◌∷◌, arith,
}
use linux_unix_system_progra.Sys.{
  Trace, Kernel, End, exited, Reply, ok, fail, done, halted, ts_terminated, ts_joined, load_state,
  store_state, thread_join, mutex_lock, Round, next, leave, loop, run_cases, bind_done, bind_halted,
  M, and_then, or_die, ◌>>=◌, pure, call, exit, mutex_unlock, after,
}
use linux_unix_system_progra.Threads.Multijoin.{reap_one, reap_from, reap_round, reap}

-- The threads that were joined, those whose state was looked at, those found to be terminated, and those
-- that were marked as joined: their indices, the latest first.
unfoldable pub joins : Trace → List ℕ
joins [] = []
joins ((thread_join idx, ok _) ∷ t) = idx ∷ joins t
joins (_ ∷ t) = joins t

pub looked_at : Trace → List ℕ
looked_at [] = []
looked_at ((load_state idx, _) ∷ t) = idx ∷ looked_at t
looked_at (_ ∷ t) = looked_at t

unfoldable pub found : Trace → List ℕ
found [] = []
found ((load_state idx, ts_terminated) ∷ t) = idx ∷ found t
found (_ ∷ t) = found t

pub marked : Trace → List ℕ
marked [] = []
marked ((store_state idx ts_joined, _) ∷ t) = idx ∷ marked t
marked (_ ∷ t) = marked t

-- The indices of `n` threads from `idx` on, one after the other in front of a list.
pub in_turn : ℕ → ℕ → List ℕ → List ℕ
in_turn idx zero l = l
in_turn idx (suc n) l = in_turn (suc idx) n (idx ∷ l)

-- How often the mutex was taken.
pub locks : Trace → ℕ
locks [] = 0
locks ((mutex_lock, ok _) ∷ t) = locks t + 1
locks (_ ∷ t) = locks t

module _ (k : Kernel) where
  one-counts :
      (idx live : ℕ) (t u : Trace) (r : ℕ)
      → joins t ≡ found t
      → reap_one idx live k t ≡ done r u
      → (joins u ≡ found u)
        × (looked_at u ≡ idx ∷ looked_at t)
        × (marked u ≡ idx ∷ marked t)
        × (r ≡ live - 1)
        × (locks u ≡ locks t)
  unfolding reap_one joins looked_at found marked locks
  one-counts idx live t u r same h = ground (arith, same)

  one-ends :
      (idx live : ℕ) (t u : Trace) (e : End) → reap_one idx live k t ≡ halted e u → e ≡ exited 1
  unfolding reap_one
  one-ends idx live t u e h = ground arith

  from-counts :
      (n idx live : ℕ) (t u : Trace) (r : ℕ)
      → joins t ≡ found t
      → reap_from idx n live k t ≡ done r u
      → (joins u ≡ found u)
        × (looked_at u ≡ in_turn idx n (looked_at t))
        × (marked u ≡ in_turn idx n (marked t))
        × (r ≡ live - n)
        × (locks u ≡ locks t)
  unfolding reap_from in_turn
  from-counts zero idx live t u r same h = ground (arith, same)
  from-counts (suc n) idx live t u r same h =
      let (l, v, g, f) = bind_done (reap_one idx live) (reap_from (suc idx) n) k t h in
      let (a, s, b, c, d) = one-counts idx live t v l same g in
      let (a', s', b', c', d') = from-counts n (suc idx) l v u r a f in
      (
        a',
        s' ∙ ap (in_turn (suc idx) n) s,
        b' ∙ ap (in_turn (suc idx) n) b,
        omega (arith, c, c'),
        d' ∙ d,
      )

  from-ends :
      (n idx live : ℕ) (t u : Trace) (e : End)
      → reap_from idx n live k t ≡ halted e u
      → e ≡ exited 1
  unfolding reap_from
  from-ends zero idx live t u e h = ground arith
  from-ends (suc n) idx live t u e h =
      elim (bind_halted (reap_one idx live) (reap_from (suc idx) n) k t h) [
        | inl g ↦ one-ends idx live t u e g
        | inr (l, v, g, f) ↦ from-ends n (suc idx) l v u e f
      ]

  abbrev again : ℕ → M (Round ℕ (Unit {0}))
  again l = pure (next l)

  -- What one round of the outer loop leaves.
  abbrev Reaped : ℕ → ℕ → Trace → Trace → Round ℕ (Unit {0}) → Type 0
  Reaped tot live t u r =
      (r ≡ next (live - tot))
      × (joins u ≡ found u)
      × (looked_at u ≡ in_turn 0 tot (looked_at t))
      × (marked u ≡ in_turn 0 tot (marked t))
      × (locks u ≡ locks t + 1)

  after_lock :
      (tot live : ℕ) (t u : Trace) (r : Round ℕ (Unit {0})) (x : Reply (Unit {0}))
      → joins t ≡ found t
      → and_then
          (or_die "pthread_mutex_lock\n" 1 x k ((mutex_lock, x) ∷ t))
          (λ _. reap_from 0 tot live >>= λ l. pure (next l))
          k
        ≡ done r u
      → Reaped tot live t u r
  unfolding joins looked_at found marked locks
  after_lock tot live t u r (fail e) same h = ground arith
  after_lock tot live t u r (ok x) same h =
      let (l, v, g, f) =
        bind_done (reap_from 0 tot live) (λ l. pure (next l)) k ((mutex_lock, ok x) ∷ t) h in
      let (a, s, b, c, d) = from-counts tot 0 live ((mutex_lock, ok x) ∷ t) v l same g in
      ground (arith, a, s, b, c, d, f)

  round-Reaped :
      (tot n : ℕ) (t u : Trace) (r : Round ℕ (Unit {0}))
      → joins t ≡ found t
      → reap_round tot (suc n) k t ≡ done r u
      → Reaped tot (suc n) t u r
  unfolding reap_round
  round-Reaped tot n t u r same h = after_lock tot (suc n) t u r (k t mutex_lock) same h

  lock-ends :
      (tot n : ℕ) (t u : Trace) (e : End) (x : Reply (Unit {0}))
      → and_then
          (or_die "pthread_mutex_lock\n" 1 x k ((mutex_lock, x) ∷ t))
          (λ _. reap_from 0 tot (suc n) >>= again)
          k
        ≡ halted e u
      → e ≡ exited 1
  lock-ends tot n t u e (fail y) g = ground arith
  lock-ends tot n t u e (ok y) g =
      elim (bind_halted (reap_from 0 tot (suc n)) again k ((mutex_lock, ok y) ∷ t) g) [
        | inl f ↦ from-ends tot 0 (suc n) ((mutex_lock, ok y) ∷ t) u e f
        | inr (l, v, f, no_end) ↦ ground arith
      ]

  round-ends :
      (tot n : ℕ) (t u : Trace) (e : End) → reap_round tot (suc n) k t ≡ halted e u → e ≡ exited 1
  unfolding reap_round
  round-ends tot n t u e h = lock-ends tot n t u e (k t mutex_lock) h

  -- How main ends, once it has created its threads.
  abbrev Ended : ℕ → Trace → End → Trace → Type 0
  Ended tot t e u =
      (e ≡ exited 1)
      ⊎ ((e ≡ exited 0)
          × (joins u ≡ found u)
          × (looked_at u ≡ in_turn 0 tot (looked_at t))
          × (marked u ≡ in_turn 0 tot (marked t))
          × (locks u ≡ locks t + 1))

  unlock : Unit {0} → M (Unit {0})
  unlock _ = (call mutex_unlock >>= or_die "pthread_mutex_unlock\n" 1) >>= λ _. exit 0

  unlock-Ended :
      (tot : ℕ) (t v u : Trace) (e : End)
      → Reaped tot tot t v (next 0)
      → unlock tt k v ≡ halted e u
      → Ended tot t e u
  unfolding unlock joins looked_at found marked locks
  unlock-Ended tot t v u e (r, a, s, b, c) h = ground (arith, a, s, b, c)

  after_round :
      (fuel tot : ℕ) (t v u : Trace) (e : End) (r : Round ℕ (Unit {0}))
      → Reaped tot tot t v r
      → and_then (after (loop (suc fuel) (reap_round tot)) k (done r v)) unlock k ≡ halted e u
      → Ended tot t e u
  unfolding loop after reap_round
  after_round fuel tot t v u e (leave a) (r, _, _, _, _) h = ground (arith, r)
  after_round fuel tot t v u e (next zero) reaped h = unlock-Ended tot t v u e reaped h
  after_round fuel tot t v u e (next (suc l)) (r, _, _, _, _) h =
      let none_left : tot - tot ≡ 0 = omega arith in ground (arith, r, none_left)

  -- What main of thread_multijoin.c does once its threads are created, if there is at least one: two
  -- rounds of fuel are enough for its outer loop, and it ends with status 0 or, if a call fails, with
  -- status 1. When it ends with status 0, it has looked at the state of each thread once, in the order
  -- of their indices, has marked each thread once in this order as joined, has joined exactly the
  -- threads whose state it found to be terminated, and has taken the mutex once.
  pub reap-Ended :
      (fuel n : ℕ) (t u : Trace) (e : End)
      → joins t ≡ found t
      → reap (suc (suc fuel)) (suc n) k t ≡ halted e u
      → (e ≡ exited 1)
        ⊎ ((e ≡ exited 0)
            × (joins u ≡ found u)
            × (looked_at u ≡ in_turn 0 (suc n) (looked_at t))
            × (marked u ≡ in_turn 0 (suc n) (marked t))
            × (locks u ≡ locks t + 1))
  unfolding reap loop unlock after
  reap-Ended fuel n t u e same h = elim (run_cases (reap_round (suc n) (suc n) k t)) [
    | inl (r, v, g) ↦ after_round fuel (suc n) t v u e r (round-Reaped (suc n) n t v r same g) (
        subst
          (λ x. and_then (after (loop (suc fuel) (reap_round (suc n))) k x) unlock k ≡ halted e u) g
          h)
    | inr (e', v, g) ↦ inl (
        let one = round-ends (suc n) n t v e' g in
        let g' =
          subst
            (λ x. and_then (after (loop (suc fuel) (reap_round (suc n))) k x) unlock k ≡ halted e u)
            g h in
        ground (arith, one, g'))
  ]
