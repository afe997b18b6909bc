-- ===== src/SvQueue/Create/KeyCount.antt =====
-- How many key options a successful run was given.
use linux_unix_system_progra.Prelude.{
  ℕ, ◌+◌, ◌%◌, ◌^◌, ◌<◌, ◌≡◌, ◌≢◌, refl, inl, inr, ◌==◌, ◌||◌, some, not, Bool, List, [], ◌∷◌, Text,
  if◌then◌else◌, arith,
}
use linux_unix_system_progra.Sys.{
  Trace, Kernel, End, exited, done, halted, getopt, Round, loop, Held, loop_done, loop_ends,
  and_then_halted, M,
}
use linux_unix_system_progra.SvQueue.Create.{Options, option_round, open_queue, usage_error, main}

abbrev names_key : ℕ → Bool
names_key c = c == b'f' || (c == b'k' || c == b'p')

-- The options -f, -k and -p that getopt found.
unfoldable pub key_options : Trace → ℕ
key_options [] = 0
key_options ((getopt _, some (c, _)) ∷ t) = if names_key c then key_options t + 1 else key_options t
key_options (_ ∷ t) = key_options t

module _ (k : Kernel) (prog_name : Text) (n : ℕ) where
  abbrev Counted : Options → Trace → Type 0
  Counted o t = o.num_key_flags ≡ (n + key_options t) % 2 ^ 32

  round-Counted :
      (o : Options) (t u : Trace) (r : Round Options Options)
      → Counted o t
      → option_round prog_name o k t ≡ done r u
      → Held Counted Counted r u
  unfolding option_round key_options
  round-Counted o t u r c h = ground arith

  round-no_success :
      (o : Options) (t u : Trace) (e : End)
      → option_round prog_name o k t ≡ halted e u
      → e ≢ exited 0
  unfolding option_round
  round-no_success o t u e h = ground arith

module _ (k : Kernel) (prog_name : Text) where
  -- What stands behind the loop.
  abbrev finish : Options → M (Unit {0})
  finish o =
      if not (o.num_key_flags == 1)
      then usage_error prog_name
          (some "Exactly one of the options -f, -k, or -p must be supplied\n")
      else open_queue o

  finish-one :
      (n : ℕ) (o : Options) (t u : Trace)
      → o.num_key_flags ≡ (n + key_options t) % 2 ^ 32
      → finish o k t ≡ halted (exited 0) u
      → (n + key_options u) % 2 ^ 32 ≡ 1
  unfolding usage_error open_queue key_options
  finish-one n o t u c h = ground arith

-- If svmsg_create.c ends with status 0, the value that `numKeyFlags` held before it was set and the
-- number of options -f, -k and -p that getopt found sum up to 1, modulo 2 ^ 32. So if it held 0, there
-- was exactly one key option.
pub main-one_key :
    (fuel : ℕ) (start : Options) (argv : List Text) (k : Kernel) (u : Trace)
    → start.num_key_flags < 2 ^ 32
    → main fuel start argv k [] ≡ halted (exited 0) u
    → (start.num_key_flags + key_options u) % 2 ^ 32 ≡ 1
unfolding main key_options
main-one_key fuel start [] k u lt h = ground arith
main-one_key fuel start (p ∷ ps) k u lt h =
    elim (and_then_halted (loop fuel (option_round p) start k []) (finish k p) k h) [
      | inl g ↦ absurd (
          loop_ends (option_round p) k (λ e. e ≢ exited 0) (round-no_success k p 0)
            (λ e. ground (arith, e)) fuel start [] u (exited 0) g refl)
      | inr (o, v, g, f) ↦
          finish-one k p start.num_key_flags o v u
            (loop_done (option_round p) k (Counted k p start.num_key_flags)
              (Counted k p start.num_key_flags) (round-Counted k p start.num_key_flags) fuel start
              [] v o (ground (arith, lt)) g)
            f
    ]
