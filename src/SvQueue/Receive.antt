-- ===== src/SvQueue/Receive.antt =====
-- TLPI/chapter46/svmsg_receive.c: takes a message and shows it.
pub mod Buffer
use linux_unix_system_progra.Prelude.{
  ℕ, ◌*◌, none, some, pos, ℤ, String, Option, List, [], ◌∷◌, ◌++◌, Text, ltb, ◌==◌, ◌||◌, length,
  drop, if◌then◌else◌, atoi, c_string, int_size,
}
use linux_unix_system_progra.Sys.{
  IpcFlag, ipc_nowait, msg_noerror, num, int, str, printf, eprintf, getopt, operands, queue_receive,
  M, ◌>>=◌, ◌>>◌, pure, call, exit, say, or_die, arg, halt, End, Round, next, leave, loop,
}

abbrev pub max_mtext : ℕ
max_mtext = 1024

abbrev report : Option String → M (Unit {0})
report none = pure tt
report (some msg) = call (eprintf msg [])

-- MSG_EXCEPT is defined, so that its line is not compiled.
unfoldable pub usage_error : {A : Type 0} → Text → Option String → M A
usage_error prog_name msg = do
  report msg
  call (eprintf "Usage: %s [options] msqid [max-bytes]\n" (str prog_name ∷ []))
  call (eprintf "Permitted options are:\n" [])
  call (eprintf " -e Use MSG_NOERROR flag\n" [])
  call (eprintf " -t type Select message of given type\n" [])
  call (eprintf " -n Use IPC_NOWAIT flag\n" [])
  exit 1

-- The flags and the type.
abbrev pub Options : Type 0
Options = List IpcFlag × ℤ

-- Where MSG_EXCEPT is defined, -x falls through to the usage message.
unfoldable pub option_round : Text → Options → M (Round Options Options)
unfolding usage_error
option_round prog_name o = do
  opt ← call (getopt "ent:x")
  elim opt [
    | none ↦ pure (leave o)
    | some c ↦
        if c.0 == b'e'
        then pure (next (msg_noerror ∷ o.0, o.1))
        else if c.0 == b'n'
        then pure (next (ipc_nowait ∷ o.0, o.1))
        else if c.0 == b't'
        then pure (next (o.0, atoi c.1))
        else usage_error prog_name none
  ]

-- `maxBytes` for the operands.
abbrev pub max_bytes : List Text → ℕ
max_bytes (_ ∷ size ∷ _) = int_size (atoi size)
max_bytes _ = max_mtext

-- What printf("%s", msg.mtext) shows; without a terminator it would read past the buffer.
abbrev pub body : Option Text → M (Unit {0})
body none = halt End.undefined
body (some s) = call (printf "; body=%s" (str s ∷ []))

-- The message overwrote the front of the garbage in the buffer. A message that is longer than the buffer is written past its end.
unfoldable pub show_message : Text → ℤ → Text → M (Unit {0})
show_message garbage mtype bs = if ltb max_mtext (length bs) then halt End.undefined else (do
  call (printf "Received: type=%ld; length=%ld" (int mtype ∷ num (length bs) ∷ []))
  if ltb 0 (length bs) then body (c_string (bs ++ drop (length bs) garbage)) else pure tt
  say "\n"
  exit 0)

unfoldable pub receive : Text → Options → Text → List Text → M (Unit {0})
unfolding show_message usage_error
receive garbage o prog_name rest =
    if length rest == 0 || ltb 2 (length rest)
    then usage_error prog_name (some "Wrong number of arguments\n")
    else (do
      msqid ← arg rest 0
      m ← or_die "msgrcv\n" 1 (← call (queue_receive (atoi msqid) (max_bytes rest) o.1 o.0))
      show_message garbage m.0 m.1)

-- `garbage` is what the buffer holds before the call.
unfoldable pub main : ℕ → Text → List Text → M (Unit {0})
unfolding receive option_round
main fuel garbage argv = do
  prog_name ← arg argv 0
  o ← loop fuel (option_round prog_name) ([], pos 0)
  rest ← call operands
  receive garbage o prog_name rest
