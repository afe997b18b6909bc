-- ===== src/Threads/Counter/Atomic.antt =====
-- The two threads of thread_incr_mutex.c next to two threads that add 1 in one step.
use linux_unix_system_progra.Prelude.{
  ℕ, suc, ◌+◌, ◌%◌, ◌≡◌, subst, subst₂, sym, some, ◌⊎◌, inl, inr, arith,
}
use linux_unix_system_progra.Threads.Counter.{
  word, Pc, at_lock, at_load, at_add, at_store, at_unlock, Thread, Shared, thread, lock, step,
  State, Step, first_steps, second_steps, Reachable, begin, then_step, begun,
}
use linux_unix_system_progra.Threads.Counter.Exclusion.{
  owing, Sound, Sound-swap, Safe, Reachable-Safe,
}

-- The count, and the additions that each thread has yet to make.
pub record Spec : Type 0 where
  pub count : ℕ
  pub first_left : ℕ
  pub second_left : ℕ

abbrev pub spec : ℕ → ℕ → ℕ → Spec
spec count a b = record { count = count; first_left = a; second_left = b }

-- The specification: one thread adds 1 at once.
pub data Adds : Spec → Spec → Type 0 where
  first_adds : (count a b : ℕ) → Adds (spec count (suc a) b) (spec ((count + 1) % word) a b)
  second_adds : (count a b : ℕ) → Adds (spec count a (suc b)) (spec ((count + 1) % word) a b)

pub data Runs (start : Spec) : Spec → Type 0 where
  not_yet : Runs start start
  then_adds : (p q : Spec) → Runs start p → Adds p q → Runs start q

-- What the specification sees of a state.
abbrev pub view : State → Spec
view x = spec x.globals.glob (owing x.first.pc x.first.left) (owing x.second.pc x.second.left)

-- A statement of one thread is an addition, or changes nothing that is seen.
abbrev Seen : ℕ → ℕ → ℕ → ℕ → Type 0
Seen glob left glob' left' =
    ((glob' ≡ glob) × (left' ≡ left)) ⊎ ((glob' ≡ (glob + 1) % word) × (left ≡ suc left'))

step-Seen :
    (total me other : ℕ) (s : Shared) (pc : Pc) (left loc : ℕ) (y : Thread) (s' : Shared)
    (x' : Thread)
    → Sound total me other s (thread pc left loc) y
    → step me s (thread pc left loc) ≡ some (s', x')
    → Seen s.glob (owing pc left) s'.glob (owing x'.pc x'.left)
unfolding step lock
step-Seen total me other s at_lock left loc y s' x' i h = ground (arith, h)
step-Seen total me other s at_load left loc y s' x' i h = ground (arith, h)
step-Seen total me other s at_add left loc y s' x' i h = ground (arith, h)
step-Seen total me other s at_store left loc y s' x' i h = ground (arith, i, h)
step-Seen total me other s at_unlock left loc y s' x' i h = ground (arith, h)

module _ {start : Spec} {glob glob' a a' b : ℕ} where
  first-Runs : Runs start (spec glob a b) → Seen glob a glob' a' → Runs start (spec glob' a' b)
  first-Runs r (inl (g, e)) = subst₂ (λ x y. Runs start (spec x y b)) (sym g) (sym e) r
  first-Runs r (inr (g, e)) =
      then_adds (spec glob (suc a') b) (spec glob' a' b)
        (subst (λ y. Runs start (spec glob y b)) e r)
        (subst (λ x. Adds (spec glob (suc a') b) (spec x a' b)) (sym g) (first_adds glob a' b))

  second-Runs : Runs start (spec glob b a) → Seen glob a glob' a' → Runs start (spec glob' b a')
  second-Runs r (inl (g, e)) = subst₂ (λ x y. Runs start (spec x b y)) (sym g) (sym e) r
  second-Runs r (inr (g, e)) =
      then_adds (spec glob b (suc a')) (spec glob' b a')
        (subst (λ y. Runs start (spec glob b y)) e r)
        (subst (λ x. Adds (spec glob b (suc a')) (spec x b a')) (sym g) (second_adds glob b a'))

Step-Runs :
    (total : ℕ) (start : Spec) (x y : State)
    → Safe total x
    → Step x y
    → Runs start (view x)
    → Runs start (view y)
Step-Runs total start x y i (first_steps s s' a a' b h) r =
    first-Runs r (step-Seen total 0 1 s a.pc a.left a.loc b s' a' i h)
Step-Runs total start x y i (second_steps s s' a b b' h) r =
    second-Runs r (step-Seen total 1 0 s b.pc b.left b.loc a s' b' (Sound-swap total 0 1 s a b i) h)

-- The program implements two threads that add 1 in one step each: in every schedule, whatever state it
-- leads to, the count and the additions to come are those of some run of the specification.
pub Reachable-Runs :
    (n m loc loc' : ℕ) (x : State) → Reachable (begun n m loc loc') x → Runs (spec 0 n m) (view x)
Reachable-Runs n m loc loc' x begin = not_yet
Reachable-Runs n m loc loc' x (then_step y z r s) =
    Step-Runs (n + m) (spec 0 n m) y z (Reachable-Safe n m loc loc' y r) s
      (Reachable-Runs n m loc loc' y r)
