-- ===== src/PosixQueue/Create.antt =====
-- TLPI/chapter52/pmsg_create.c: makes or opens a POSIX message queue.
use linux_unix_system_progra.Prelude.{
  ℕ, ◌*◌, ◌==◌, ℤ, pos, none, some, List, [], ◌∷◌, Text, if◌then◌else◌, atoi,
}
use linux_unix_system_progra.Sys.{
  OpenFlag, o_rdwr, o_creat, o_excl, str, eprintf, getopt, operands, mq_create, M, ◌>>=◌, ◌>>◌,
  pure, call, exit, or_die, arg, Round, next, leave, loop,
}

unfoldable pub usage_error : {A : Type 0} → Text → M A
usage_error prog_name = do
  call (
      eprintf "Usage: %s [-cx] [-m maxmsg] [-s msgsize] mq-name [octal-perms]\n"
        (str prog_name ∷ []))
  call (eprintf " -c Create queue (O_CREAT)\n" [])
  call (eprintf " -m maxmsg Set maximum # of messages\n" [])
  call (eprintf " -s msgsize Set maximum message size\n" [])
  call (eprintf " -x Create exclusively (O_EXCL)\n" [])
  exit 1

-- `flags`, and the two attributes that `attr` has.
pub record Options : Type 0 where
  pub flags : List OpenFlag
  pub mq_maxmsg : ℤ
  pub mq_msgsize : ℤ

abbrev pub options : List OpenFlag → ℤ → ℤ → Options
options flags maxmsg msgsize = record { flags = flags; mq_maxmsg = maxmsg; mq_msgsize = msgsize }

abbrev pub start : Options
start = options (o_rdwr ∷ []) (pos 50) (pos 2048)

unfoldable pub option_round : Text → Options → M (Round Options Options)
unfolding usage_error
option_round prog_name o = do
  opt ← call (getopt "cm:s:x")
  elim opt [
    | none ↦ pure (leave o)
    | some c ↦
        if c.0 == b'c'
        then pure (next (options (o_creat ∷ o.flags) o.mq_maxmsg o.mq_msgsize))
        else if c.0 == b'm'
        then pure (next (options o.flags (atoi c.1) o.mq_msgsize))
        else if c.0 == b's'
        then pure (next (options o.flags o.mq_maxmsg (atoi c.1)))
        else if c.0 == b'x'
        then pure (next (options (o_excl ∷ o.flags) o.mq_maxmsg o.mq_msgsize))
        else usage_error prog_name
  ]

abbrev pub mode_of : List Text → ℤ
mode_of (_ ∷ perms ∷ _) = atoi perms
mode_of _ = pos (6 * 64)

unfoldable pub make : Text → Options → List Text → M (Unit {0})
unfolding usage_error
make prog_name o [] = usage_error prog_name
make prog_name o (name ∷ rest) = do
  or_die "mq_open\n" 1
      (← call (mq_create name o.flags (mode_of (name ∷ rest)) o.mq_maxmsg o.mq_msgsize))
  exit 0

unfoldable pub main : ℕ → List Text → M (Unit {0})
unfolding make option_round
main fuel argv = do
  prog_name ← arg argv 0
  o ← loop fuel (option_round prog_name) start
  rest ← call operands
  make prog_name o rest
