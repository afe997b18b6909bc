-- ===== src/PosixQueue/Receive.antt =====
-- TLPI/chapter52/pmsg_receive.c: shows a message of a POSIX message queue.
use linux_unix_system_progra.Prelude.{
  ℕ, Bool, true, false, none, some, List, [], ◌∷◌, Text, ltb, length, if◌then◌else◌, atoi, int_bits,
}
use linux_unix_system_progra.Sys.{
  OpenFlag, o_rdwr, num, str, printf, eprintf, getopt, operands, mq_open, mq_msgsize, mq_receive,
  malloc, write, M, ◌>>=◌, ◌>>◌, pure, call, exit, die, or_die, arg, Round, leave, loop,
}

unfoldable pub usage_error : {A : Type 0} → Text → M A
usage_error prog_name = do
  call (eprintf "Usage: %s [-n] name\n" (str prog_name ∷ []))
  call (eprintf " -n Use O_NONBLOCK flag\n" [])
  exit 1

-- The loop goes on while getopt returns -1, and then the switch takes its default.
unfoldable pub option_round : Text → List OpenFlag → M (Round (List OpenFlag) (List OpenFlag))
unfolding usage_error
option_round prog_name flags = do
  opt ← call (getopt "n")
  elim opt [ none ↦ usage_error prog_name | some c ↦ pure (leave flags) ]

-- The priority, which mq_receive overwrites: with two operands or more it is read from the third.
abbrev pub prio_of : List Text → M ℕ
prio_of rest =
    if ltb (length rest) 2 then pure 0 else (do prio ← arg rest 2; pure (int_bits (atoi prio)))

abbrev pub allocate : Bool → M (Unit {0})
allocate true = pure tt
allocate false = die "malloc\n" 1

-- The message and the newline.
unfoldable pub show_message : Text → ℕ → M (Unit {0})
show_message bs prio = do
  call (printf "Read %ld bytes; priority = %u\n" (num (length bs) ∷ num prio ∷ []))
  or_die "write\n" 1 (← call (write 1 bs (length bs)))
  call (write 1 (10 ∷ []) 1)
  exit 0

unfoldable pub take_message : ℕ → M (Unit {0})
unfolding show_message
take_message mqd = do
  msg_size ← or_die "mq_getattr\n" 1 (← call (mq_msgsize mqd))
  allocate (← call (malloc msg_size))
  m ← or_die "mq_receive\n" 1 (← call (mq_receive mqd msg_size))
  show_message m.0 m.1

unfoldable pub receive : Text → List OpenFlag → List Text → M (Unit {0})
unfolding usage_error take_message
receive prog_name flags rest = if ltb (length rest) 1 then usage_error prog_name else (do
  prio_of rest
  name ← arg rest 0
  mqd ← or_die "mq_open\n" 1 (← call (mq_open name flags))
  take_message mqd)

unfoldable pub main : ℕ → List Text → M (Unit {0})
unfolding receive option_round
main fuel argv = do
  prog_name ← arg argv 0
  flags ← loop fuel (option_round prog_name) (o_rdwr ∷ [])
  rest ← call operands
  receive prog_name flags rest
