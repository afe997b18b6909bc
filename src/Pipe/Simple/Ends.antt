-- ===== src/Pipe/Simple/Ends.antt =====
-- The two ends of the pipe.
use linux_unix_system_progra.Prelude.{
  ℕ, ◌≡◌, refl, ◌≢◌, Bool-cases, true, [], ◌∷◌, ◌++◌, codes, arith, take-length, append-nil, inl,
  inr,
}
use linux_unix_system_progra.Sys.{
  close, Trace, Kernel, End, exited, done, halted, and_then_halted, failed, Round, loop, Held,
  loop_done, loop_ends,
}
use linux_unix_system_progra.Sys.View.{received, sent, closed}
use linux_unix_system_progra.Sys.Files.{Accepts}
use linux_unix_system_progra.Pipe.Simple.{child_round, child_end, child}

module _ (k : Kernel) (screen : Accepts k 1) (r : ℕ) where
  abbrev Shown : Unit {0} → Trace → Type 0
  Shown s t = sent 1 t ≡ received r t

  round-Shown :
      (s : Unit {0}) (t u : Trace) (x : Round (Unit {0}) (Unit {0}))
      → Shown s t
      → child_round r s k t ≡ done x u
      → Held Shown Shown x u
  unfolding child_round sent received
  round-Shown s t u x c h = grind (arith, take-length, append-nil, screen.write_ok)

  round-exits :
      (s : Unit {0}) (t u : Trace) (e : End) → child_round r s k t ≡ halted e u → e ≡ exited 1
  unfolding child_round
  round-exits s t u e h = ground arith

  loop_exits : (fuel : ℕ) (t u : Trace) → loop fuel (child_round r) tt k t ≡ halted (exited 0) u → ⊥
  loop_exits fuel t u h =
      loop_ends (child_round r) k (λ e. e ≢ exited 0)
        (λ s t v e g. ground (arith, round-exits s t v e g)) (λ e. ground (arith, e)) fuel tt t u
        (exited 0) h refl

  -- What the loop leaves as it found it.
  round-closed :
      (fd : ℕ) (s : Unit {0}) (t u : Trace) (x : Round (Unit {0}) (Unit {0}))
      → closed fd t ≡ true
      → child_round r s k t ≡ done x u
      → Held (λ _ v. closed fd v ≡ true) (λ _ v. closed fd v ≡ true) x u
  unfolding child_round closed
  round-closed fd s t u x c h = grind arith

  child_end-sent :
      (w : ℕ) (t u : Trace)
      → Shown tt t
      → closed w t ≡ true
      → child_end r k t ≡ halted (exited 0) u
      → (sent 1 u ≡ received r u ++ codes "\n") × (closed r u ≡ true) × (closed w u ≡ true)
  unfolding child_end sent received closed
  child_end-sent w t u c d h =
      ground (arith, screen.write_ok ((close r, k t (close r)) ∷ t) (codes "\n"))

  -- If standard output takes every write and the child exits with status 0, then it has shown exactly
  -- the bytes that it read from the pipe, and a newline, and it has closed both ends of the pipe.
  pub child-sent :
      (w fuel : ℕ) (u : Trace)
      → child fuel r w k [] ≡ halted (exited 0) u
      → (sent 1 u ≡ received r u ++ codes "\n") × (closed r u ≡ true) × (closed w u ≡ true)
  unfolding child sent received closed
  child-sent w fuel u h = elim (Bool-cases (failed (k [] (close w)))) [
    | inl bad ↦ ground (arith, bad)
    | inr good ↦
        let t : Trace = (close w, k [] (close w)) ∷ [] in
        let start : closed w t ≡ true = ground (arith, good) in
        elim (and_then_halted (loop fuel (child_round r) tt k t) (λ _. child_end r) k
          (ground (arith, good))) [
            | inl g ↦ absurd (loop_exits fuel t u g)
            | inr (x, v, g, f) ↦
                child_end-sent w v u
                  (loop_done (child_round r) k Shown Shown round-Shown fuel tt t v x refl g)
                  (loop_done (child_round r) k (λ _ v. closed w v ≡ true) (λ _ v. closed w v ≡ true)
                    (round-closed w) fuel tt t v x start g)
                  f
          ]
  ]
