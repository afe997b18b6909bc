-- ===== src/MessageFile/Client.antt =====
-- TLPI/chapter46/server/svmsg_file_client.c: asks for a file and counts what comes.
mod Examples
pub mod Total
use linux_unix_system_progra.Prelude.{
  ℕ, ◌+◌, ◌-◌, pos, Bool, true, false, not, ◌||◌, List, [], ◌∷◌, Text, codes, text_eq,
  if◌then◌else◌, ◌==◌, ltb, length,
}
use linux_unix_system_progra.Sys.{
  Reply, ok, fail, ipc_private, num, str, printf, msgget, msgsnd, msgrcv, msgctl_rmid,
  register_atexit, M, ◌>>=◌, ◌>>◌, pure, call, exit, say, die, or_die, arg, Round, next, leave,
  loop,
}
use linux_unix_system_progra.MessageFile.Protocol.{
  server_key, path_max, Request, request_body, req_msg_size, resp_msg_size, resp_mt_failure,
  resp_mt_data,
}

-- The exit handler.
pub remove_queue : ℕ → M (Unit {0})
remove_queue client_id = do
  removed ← call (msgctl_rmid client_id)
  elim removed [ ok _ ↦ pure tt | fail e ↦ say "msgctl - IPC_RMID\n" ]

-- exit(status) once the handler is registered.
pub quit : {A : Type 0} → ℕ → ℕ → M A
unfolding remove_queue
quit client_id status = do remove_queue client_id; exit status

-- `resp.mtype`, `numTotal` and `numMsgs`.
pub record Progress : Type 0 where
  pub mtype : ℕ
  pub num_total : ℕ
  pub num_msgs : ℕ

pub receive_round : ℕ → Progress → M (Round Progress Progress)
unfolding quit
receive_round client_id s =
    if s.mtype == resp_mt_data
    then (do
      got ← call (msgrcv client_id (pos resp_msg_size) (pos 0) [])
      elim got [
        | fail e ↦ do say "msgrcv 2\n"; quit client_id 1
        | ok m ↦ pure (
            next (record {
              mtype = m.0;
              num_total = s.num_total + length m.1;
              num_msgs = s.num_msgs + 1;
            }))
      ])
    else pure (leave s)

pub report : ℕ → Progress → M (Unit {0})
unfolding quit
report client_id s = do
  call (printf "Received %ld bytes (%d messages)\n" (num s.num_total ∷ num s.num_msgs ∷ []))
  quit client_id 0

-- Lines 63 to 91, after the request was sent.
pub receive_file : ℕ → ℕ → M (Unit {0})
unfolding quit report
receive_file fuel client_id = do
  got ← call (msgrcv client_id (pos resp_msg_size) (pos 0) [])
  elim got [
    | fail e ↦ do say "msgrcv 1\n"; quit client_id 1
    | ok m ↦
        if m.0 == resp_mt_failure
        then (do say "recevied: RESP_MT_FAILURE\n"; call (msgctl_rmid client_id); quit client_id 1)
        else (do
          s ←
              loop fuel (receive_round client_id)
                (record { mtype = m.0; num_total = length m.1; num_msgs = 1 })
          report client_id s)
  ]

pub main : ℕ → List Text → M (Unit {0})
unfolding text_eq quit receive_file
main fuel argv = do
  help ←
      if length argv == 2
      then (do first ← arg argv 1; pure (text_eq first (codes "--help")))
      else pure true
  if help
      then (do program ← arg argv 0; call (printf "%s pathname\n" (str program ∷ [])); exit 1)
      else pure tt
  pathname ← arg argv 1
  if ltb (path_max - 1) (length pathname)
      then (do
        call (printf "pathname too long (max: %ld bytes)\n" (num (path_max - 1) ∷ []))
        exit 1)
      else pure tt
  server_id ← or_die "serverId\n" 1 (← call (msgget server_key [] 0o200))
  client_id ← or_die "serverId\n" 1 (← call (msgget ipc_private [] 0o620))
  or_die "atexit\n" 1 (← call register_atexit)
  sent ← call (
      msgsnd server_id 1
        (request_body (record { mtype = 1; client_id = client_id; pathname = pathname }))
        req_msg_size [])
  elim sent [
    | ok _ ↦ pure tt
    | fail e ↦ do
      say "msgsnd failed when send message to the serverId for the first time \n"
      quit client_id 1
  ]
  receive_file fuel client_id
