-- ===== src/PosixQueue/Send.antt =====
-- TLPI/chapter52/pmsg_send.c: is to send a message with a priority.
use linux_unix_system_progra.Prelude.{
  ℕ, none, some, List, [], ◌∷◌, Text, ltb, length, if◌then◌else◌, atoi, int_bits,
}
use linux_unix_system_progra.Sys.{
  OpenFlag, o_rdwr, str, eprintf, getopt, operands, mq_open, mq_send, M, ◌>>=◌, ◌>>◌, pure, call,
  exit, or_die, arg, Round, next, leave, loop,
}

unfoldable pub usage_error : {A : Type 0} → Text → M A
usage_error prog_name = do
  call (eprintf "Usage: %s [-n] name msg [prio]\n" (str prog_name ∷ []))
  call (eprintf " -n Use O_NONBLOCK flag\n" [])
  exit 1

-- The loop goes on while getopt returns -1, for which the switch has no case: its other label is no
-- `default`.
unfoldable pub option_round : List OpenFlag → M (Round (List OpenFlag) (List OpenFlag))
option_round flags = do
  opt ← call (getopt "n")
  elim opt [ none ↦ pure (next flags) | some c ↦ pure (leave flags) ]

abbrev pub prio_of : List Text → ℕ
prio_of (_ ∷ _ ∷ prio ∷ _) = int_bits (atoi prio)
prio_of _ = 0

unfoldable pub send : Text → List OpenFlag → List Text → M (Unit {0})
unfolding usage_error
send prog_name flags rest = if ltb (length rest) 2 then usage_error prog_name else (do
  name ← arg rest 0
  mdq ← or_die "mq_open\n" 1 (← call (mq_open name flags))
  msg ← arg rest 1
  or_die "mq_send\n" 1 (← call (mq_send mdq msg (length msg) (prio_of rest)))
  exit 0)

unfoldable pub main : ℕ → List Text → M (Unit {0})
unfolding send option_round
main fuel argv = do
  flags ← loop fuel option_round (o_rdwr ∷ [])
  rest ← call operands
  prog_name ← arg argv 0
  send prog_name flags rest
