-- ===== src/SvQueue/Send.antt =====
-- TLPI/chapter46/svmsg_send.c: sends the text of an argument.
pub mod Bounds
use linux_unix_system_progra.Prelude.{
  ℕ, ◌+◌, none, some, String, Option, List, [], ◌∷◌, ◌++◌, Text, ltb, ◌==◌, ◌||◌, length, take,
  if◌then◌else◌, atoi, codes,
}
use linux_unix_system_progra.Sys.{
  IpcFlag, ipc_nowait, str, eprintf, getopt, operands, queue_send, M, ◌>>=◌, ◌>>◌, pure, call, exit,
  die, or_die, arg, Round, next, leave, loop,
}

abbrev pub max_mtext : ℕ
max_mtext = 1024

abbrev report : Option String → M (Unit {0})
report none = pure tt
report (some msg) = call (eprintf "%s\n" (str (codes msg) ∷ []))

unfoldable pub usage_error : {A : Type 0} → Text → Option String → M A
usage_error prog_name msg = do
  report msg
  call (eprintf "Usage: %s [-n] msqid msg-type [msg-text]\n" (str prog_name ∷ []))
  call (eprintf " -n Use IPC_NOWAIT flag\n" [])
  exit 1

unfoldable pub option_round : Text → List IpcFlag → M (Round (List IpcFlag) (List IpcFlag))
unfolding usage_error
option_round prog_name flags = do
  opt ← call (getopt "n")
  elim opt [
    | none ↦ pure (leave flags)
    | some c ↦ if c.0 == b'n' then pure (next (ipc_nowait ∷ flags)) else usage_error prog_name none
  ]

-- The bytes of `msg.mtext` that are sent, and their number, for the operands.
unfoldable pub message : List Text → M (Text × ℕ)
message (_ ∷ _ ∷ text ∷ _) =
    let msg_len = length text + 1 in
    if ltb max_mtext msg_len
    then die "Message is too long!\n" 1
    else pure (take msg_len (text ++ 0 ∷ []), msg_len)
message _ = pure ([], 0)

unfoldable pub send : List IpcFlag → List Text → M (Unit {0})
unfolding message
send flags rest =
    if ltb (length rest) 2 || ltb 3 (length rest) then die "Wrong para number(s)\n" 1 else (do
      msqid ← arg rest 0
      mtype ← arg rest 1
      m ← message rest
      or_die "msgsnd\n" 1 (← call (queue_send (atoi msqid) (atoi mtype) m.0 m.1 flags))
      exit 0)

unfoldable pub main : ℕ → List Text → M (Unit {0})
unfolding send option_round
main fuel argv = do
  prog_name ← arg argv 0
  flags ← loop fuel (option_round prog_name) []
  rest ← call operands
  send flags rest
