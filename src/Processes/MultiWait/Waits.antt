-- ===== src/Processes/MultiWait/Waits.antt =====
-- When the loop of multi_wait.c ends, and what it has counted.
use linux_unix_system_progra.Prelude.{
  ℕ, ◌+◌, ◌≡◌, ◌⊎◌, refl, inl, inr, Option, none, some, [], ◌∷◌, arith,
}
use linux_unix_system_progra.Sys.{
  Trace, Kernel, End, exited, out_of_fuel, echild, Reply, ok, fail, done, halted, wait_child,
  printf, num, Round, loop, Held, loop_halted, loop_done, run_cases,
}
use linux_unix_system_progra.Processes.MultiWait.{wait_round}

-- The children that `wait` returned, and what it returned last.
unfoldable pub reaped : Trace → ℕ
reaped [] = 0
reaped ((wait_child, ok _) ∷ t) = reaped t + 1
reaped (_ ∷ t) = reaped t

unfoldable pub last_wait : Trace → Option (Reply ℕ)
last_wait [] = none
last_wait ((wait_child, r) ∷ t) = some r
last_wait (_ ∷ t) = last_wait t

-- The count that was shown last.
unfoldable pub shown_count : Trace → ℕ
shown_count [] = 0
shown_count ((printf _ (num _ ∷ num n ∷ []), _) ∷ t) = n
shown_count (_ ∷ t) = shown_count t

module _ (k : Kernel) (before : ℕ) where
  abbrev Counted : ℕ → Trace → Type 0
  Counted n t = (reaped t ≡ before + n) × (shown_count t ≡ n)

  abbrev Bye : End → Trace → Type 0
  Bye e u =
      (e ≡ out_of_fuel)
      ⊎ (e ≡ exited 1)
      ⊎ ((e ≡ exited 0) × (last_wait u ≡ some (fail echild)) × (reaped u ≡ before + shown_count u))

  round-Counted :
      (n : ℕ) (t u : Trace) (r : Round ℕ (Unit {0}))
      → Counted n t
      → wait_round n k t ≡ done r u
      → Held Counted (λ _ _. ⊥) r u
  unfolding wait_round reaped shown_count
  round-Counted n t u r c h = ground (arith, c)

  round-Bye :
      (n : ℕ) (t u : Trace) (e : End) → Counted n t → wait_round n k t ≡ halted e u → Bye e u
  unfolding wait_round reaped shown_count last_wait
  round-Bye n t u e c h = ground (arith, c)

  loop-ends :
      (fuel : ℕ) (t u : Trace) (e : End)
      → Counted 0 t
      → loop fuel wait_round 0 k t ≡ halted e u
      → Bye e u
  loop-ends fuel t u e c h =
      loop_halted wait_round k Counted (λ _ _. ⊥) round-Counted Bye round-Bye (λ n t c. inl refl)
        fuel 0 t u e c h

  loop-endless :
      (fuel : ℕ) (t u : Trace) (x : Unit {0})
      → Counted 0 t
      → loop fuel wait_round 0 k t ≡ done x u
      → ⊥
  loop-endless fuel t u x c h =
      loop_done wait_round k Counted (λ _ _. ⊥) round-Counted fuel 0 t u x c h

  -- Every run of the loop of multi_wait.c uses up its rounds, or ends the process with status 1, or
  -- ends it with status 0 when `wait` has just said that there is no child left; in the last case the
  -- count that it showed last is the number of children that `wait` returned since the loop began. The
  -- loop is never left in another way.
  pub loop-Bye :
      (fuel : ℕ) (t : Trace)
      → reaped t ≡ before
      → shown_count t ≡ 0
      → (u : Trace) × (e : End) × (loop fuel wait_round 0 k t ≡ halted e u)
        × ((e ≡ out_of_fuel)
            ⊎ (e ≡ exited 1)
            ⊎ ((e ≡ exited 0)
                × (last_wait u ≡ some (fail echild))
                × (reaped u ≡ before + shown_count u)))
  loop-Bye fuel t a b =
      let c : Counted 0 t = (omega (arith, a), b) in
      elim (run_cases (loop fuel wait_round 0 k t)) [
        | inl (x, u, h) ↦ absurd (loop-endless fuel t u x c h)
        | inr (e, u, h) ↦ (u, e, h, loop-ends fuel t u e c h)
      ]
