-- ===== src/PosixQueue/Settings.antt =====
-- The queue that pmsg_create.c asks for, next to a description of its options.
use linux_unix_system_progra.Prelude.{
  ℕ, ◌≡◌, refl, ◌==◌, ℤ, pos, inl, inr, some, List, [], ◌∷◌, Text, if◌then◌else◌, atoi, arith,
}
use linux_unix_system_progra.Sys.{
  OpenFlag, o_rdwr, o_creat, o_excl, Trace, Kernel, End, done, halted, getopt, operands, mq_create,
  Round, loop, Held, loop_done, loop_halted, and_then_halted, ◌>>=◌, call,
}
use linux_unix_system_progra.PosixQueue.Create.{
  Options, start, option_round, usage_error, make, main,
}

-- The options that getopt found, the latest first.
unfoldable pub given : Trace → List (ℕ × Text)
given [] = []
given ((getopt _, some o) ∷ t) = o ∷ given t
given (_ ∷ t) = given t

-- The number after the latest option with this character.
pub setting : ℕ → ℤ → List (ℕ × Text) → ℤ
setting c default [] = default
setting c default ((o, a) ∷ l) = if o == c then atoi a else setting c default l

-- O_CREAT for each -c, O_EXCL for each -x, and O_RDWR.
pub flags_of : List (ℕ × Text) → List OpenFlag
flags_of [] = o_rdwr ∷ []
flags_of ((o, a) ∷ l) =
    let rest = flags_of l in
    if o == b'c' then o_creat ∷ rest else if o == b'x' then o_excl ∷ rest else rest

-- Every queue was asked for as the options before describe it.
unfoldable pub AsDescribed : Trace → Type 0
AsDescribed [] = Unit
AsDescribed ((mq_create _ flags _ maxmsg msgsize, _) ∷ t) =
    (flags ≡ flags_of (given t))
    × (maxmsg ≡ setting b'm' (pos 50) (given t))
    × (msgsize ≡ setting b's' (pos 2048) (given t))
    × AsDescribed t
AsDescribed (_ ∷ t) = AsDescribed t

abbrev Agrees : Options → Trace → Type 0
Agrees o t =
    (o.flags ≡ flags_of (given t))
    × (o.mq_maxmsg ≡ setting b'm' (pos 50) (given t))
    × (o.mq_msgsize ≡ setting b's' (pos 2048) (given t))
    × AsDescribed t

module _ (k : Kernel) (prog_name : Text) where
  round-Agrees :
      (o : Options) (t u : Trace) (r : Round Options Options)
      → Agrees o t
      → option_round prog_name o k t ≡ done r u
      → Held Agrees Agrees r u
  unfolding option_round given setting flags_of AsDescribed
  round-Agrees o t u r c h = ground arith

  round-stops :
      (o : Options) (t u : Trace) (e : End)
      → Agrees o t
      → option_round prog_name o k t ≡ halted e u
      → AsDescribed u
  unfolding option_round usage_error AsDescribed
  round-stops o t u e c h = ground arith

  make-AsDescribed :
      (o : Options) (rest : List Text) (t u : Trace) (e : End)
      → Agrees o t
      → make prog_name o rest k t ≡ halted e u
      → AsDescribed u
  unfolding make usage_error AsDescribed
  make-AsDescribed o [] t u e c h = ground arith
  make-AsDescribed o (name ∷ rest) t u e c h = ground arith

-- However pmsg_create.c ends, each queue that it asked for has O_RDWR, O_CREAT for each option -c and
-- O_EXCL for each -x, and as its attributes the numbers after the last -m and the last -s, or 50
-- messages of 2048 bytes.
pub main-AsDescribed :
    (fuel : ℕ) (argv : List Text) (k : Kernel) (u : Trace) (e : End)
    → main fuel argv k [] ≡ halted e u
    → AsDescribed u
unfolding main given setting flags_of AsDescribed
main-AsDescribed fuel [] k u e h = ground arith
main-AsDescribed fuel (p ∷ ps) k u e h =
    elim (and_then_halted (loop fuel (option_round p) start k [])
      (λ o. call operands >>= λ rest. make p o rest) k h) [
        | inl g ↦
            loop_halted (option_round p) k Agrees Agrees (round-Agrees k p) (λ _. AsDescribed)
              (round-stops k p) (λ _ _ c. let (a, b, d, x) = c in x) fuel start [] u e
              (refl, refl, refl, tt) g
        | inr (o, v, g, f) ↦
            make-AsDescribed k p o (k v operands) ((operands, k v operands) ∷ v) u e
              (loop_done (option_round p) k Agrees Agrees (round-Agrees k p) fuel start [] v o
                (refl, refl, refl, tt) g)
              f
      ]
