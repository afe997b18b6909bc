-- ===== src/PosixQueue/Stuck.antt =====
-- What the two inverted loops make of a command line without options.
use linux_unix_system_progra.Prelude.{
  ℕ, ◌+◌, ◌≡◌, refl, suc, inl, inr, none, List, [], ◌∷◌, Text, arith,
}
use linux_unix_system_progra.Sys.{
  OpenFlag, o_rdwr, Trace, Kernel, End, exited, out_of_fuel, done, halted, getopt, operands,
  mq_open, Round, loop, Held, loop_done, loop_halted, and_then_halted, M, ◌>>=◌, call, arg,
}
use linux_unix_system_progra.PosixQueue.Send
use linux_unix_system_progra.PosixQueue.Receive

-- The attempts to open a queue.
unfoldable pub opened : Trace → ℕ
opened [] = 0
opened ((mq_open _ _, _) ∷ t) = opened t + 1
opened (_ ∷ t) = opened t

module _ (k : Kernel) (no_option : (t : Trace) → k t (getopt "n") ≡ none) where
  abbrev Idle : Trace → Type 0
  Idle t = opened t ≡ 0

  round-Idle :
      (flags : List OpenFlag) (t u : Trace) (r : Round (List OpenFlag) (List OpenFlag))
      → Idle t
      → Send.option_round flags k t ≡ done r u
      → Held (λ _. Idle) (λ _ _. ⊥) r u
  unfolding Send.option_round opened
  round-Idle flags t u r c h = ground (arith, no_option t)

  round-goes_on :
      (flags : List OpenFlag) (t u : Trace) (e : End) → Send.option_round flags k t ≡ halted e u → ⊥
  unfolding Send.option_round
  round-goes_on flags t u e h = ground (arith, no_option t)

  abbrev behind : List Text → List OpenFlag → M (Unit {0})
  behind argv flags = call operands >>= λ rest. arg argv 0 >>= λ p. Send.send p flags rest

  -- If getopt never finds an option, pmsg_send.c never ends and opens no queue: however many rounds
  -- its loop is given, it uses them up.
  pub main-stuck :
      (fuel : ℕ) (argv : List Text) (u : Trace) (e : End)
      → Send.main fuel argv k [] ≡ halted e u
      → (e ≡ out_of_fuel) × (opened u ≡ 0)
  unfolding Send.main opened
  main-stuck fuel argv u e h =
      elim (and_then_halted (loop fuel Send.option_round (o_rdwr ∷ []) k []) (behind argv) k h) [
        | inl g ↦
            loop_halted Send.option_round k (λ _. Idle) (λ _ _. ⊥) round-Idle
              (λ x v. (x ≡ out_of_fuel) × (opened v ≡ 0))
              (λ flags t v x _ y. absurd (round-goes_on flags t v x y)) (λ _ _ c. (refl, c)) fuel
              (o_rdwr ∷ []) [] u e refl g
        | inr (flags, v, g, f) ↦ absurd (
            loop_done Send.option_round k (λ _. Idle) (λ _ _. ⊥) round-Idle fuel (o_rdwr ∷ []) [] v
              flags refl g)
      ]

-- If the first call of getopt finds no option, pmsg_receive.c shows how it is to be used and ends with
-- status 1, without a look at its operands.
pub main-refuses :
    (fuel : ℕ) (prog_name : Text) (args : List Text) (k : Kernel) (u : Trace) (e : End)
    → k [] (getopt "n") ≡ none
    → Receive.main (suc fuel) (prog_name ∷ args) k [] ≡ halted e u
    → (e ≡ exited 1) × (opened u ≡ 0)
unfolding Receive.main Receive.option_round Receive.usage_error loop opened
main-refuses fuel p args k u e none_left h = ground (arith, none_left)
