-- ===== src/MessageFile/Server.antt =====
-- TLPI/chapter46/server/svmsg_file_server.c: sends a file to the client that asks for it.
mod Examples
pub mod Delivery
use linux_unix_system_progra.Prelude.{
  ℕ, zero, suc, ◌+◌, pos, Bool, true, false, List, [], ◌∷◌, ◌++◌, Text, codes, if◌then◌else◌,
  length,
}
use linux_unix_system_progra.Sys.{
  Errno, eintr, Reply, ok, fail, ipc_creat, sigchld, handler, o_rdonly, Arg, num, str, printf,
  sigaction, open_file, read, msgget, msgsnd, msgrcv, msgctl_rmid, fork, waitpid_nohang, M, ◌>>=◌,
  ◌>>◌, pure, call, exit, say, die, or_die, Round, next, leave, loop,
}
use linux_unix_system_progra.BinarySems.{is_eintr}
use linux_unix_system_progra.MessageFile.Protocol.{
  server_key, Request, request_of, req_msg_size, resp_msg_size, resp_mt_failure, resp_mt_data,
  resp_mt_end,
}

-- The handler of SIGCHLD reaps until waitpid returns 0 or -1.
pub reap_round : Unit {0} → M (Round (Unit {0}) (Unit {0}))
reap_round _ = do
  reaped ← call waitpid_nohang
  elim reaped [
    | fail e ↦ pure (leave tt)
    | ok zero ↦ pure (leave tt)
    | ok (suc pid) ↦ pure (next tt)
  ]

pub grim_reaper : ℕ → M (Unit {0})
unfolding reap_round
grim_reaper fuel = loop fuel reap_round tt

-- One round of the loop that sends the file, with `count`. A message that cannot be sent ends it.
pub send_round : ℕ → ℕ → ℕ → M (Round ℕ (Unit {0}))
send_round client_id fd count = do
  num_read ← call (read fd resp_msg_size)
  elim num_read [
    | fail e ↦ pure (leave tt)
    | ok [] ↦ pure (leave tt)
    | ok (b ∷ bs) ↦ do
      call (printf "Send success %d\n" (num count ∷ []))
      sent ← call (msgsnd client_id resp_mt_data (b ∷ bs) (length (b ∷ bs)) [])
      elim sent [ fail e ↦ do say "msgsnd 2\n"; pure (leave tt) | ok _ ↦ pure (next (count + 1)) ]
  ]

-- The message at the end is taken from `&req`, the place of the pointer to the request, and not from
-- the response that was prepared: `stack` is what stands there, the pointer as the type, and the bytes
-- behind it.
pub send_end : ℕ × Text → Request → M (Unit {0})
send_end stack req = do
  sent ← call (msgsnd req.client_id stack.0 stack.1 req_msg_size [])
  or_die "msgsnd 3\n" 1 sent

pub serve_request : ℕ → ℕ × Text → Request → M (Unit {0})
unfolding send_end
serve_request fuel stack req = do
  opened ← call (open_file req.pathname (o_rdonly ∷ []) 0)
  elim opened [
    | fail e ↦ do
      sent ← call (
          msgsnd req.client_id resp_mt_failure
            (codes "file " ++ req.pathname ++ codes " couldn't open\n") req_msg_size [])
      or_die "msgsnd 1\n" 1 sent
    | ok fd ↦ do loop fuel (send_round req.client_id fd) 0; send_end stack req
  ]

-- What the main loop does with a request: the child serves it and exits, the parent goes on.
pub dispatch : ℕ → ℕ × Text → Request → M (Round (Unit {0}) (Unit {0}))
unfolding serve_request
dispatch fuel stack req = do
  call (
      printf "Received: mtype: %ld, clientId: %d, pathname: %s"
        (num req.mtype ∷ num req.client_id ∷ str req.pathname ∷ []))
  forked ← call fork
  elim forked [
    | fail e ↦ do say "fork erro \n"; pure (next tt)
    | ok zero ↦ do say "Before serveRequest\n"; serve_request fuel stack req; exit 0
    | ok (suc pid) ↦ pure (next tt)
  ]

pub receive_round : ℕ → ℕ × Text → ℕ → Unit {0} → M (Round (Unit {0}) (Unit {0}))
unfolding dispatch
receive_round fuel stack server_msg _ = do
  got ← call (msgrcv server_msg (pos req_msg_size) (pos 0) [])
  elim got [
    | fail e ↦ if is_eintr e then pure (next tt) else (do say "msgrcv\n"; pure (leave tt))
    | ok message ↦ dispatch fuel stack (request_of message)
  ]

pub main : ℕ → ℕ × Text → M (Unit {0})
main fuel stack = do
  or_die "sigaction\n" 1 (← call (sigaction sigchld handler))
  server_msg ← or_die "msgget\n" 1 (← call (msgget server_key (ipc_creat ∷ []) 0o620))
  say "Before for loop\n"
  loop fuel (receive_round fuel stack server_msg) tt
  removed ← call (msgctl_rmid server_msg)
  elim removed [ ok _ ↦ pure tt | fail e ↦ say "msgctl\n" ]
  exit 0
