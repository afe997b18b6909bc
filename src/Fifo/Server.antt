-- ===== src/Fifo/Server.antt =====
-- TLPI/chapter44/FIFO_SERVER_CLIENT/fifo_seqnum_server.c: the server of sequence numbers.
mod Examples
pub mod Numbers
use linux_unix_system_progra.Prelude.{
  ℕ, String, ◌+◌, ◌%◌, bits_int, ℤ, pos, Bool, true, false, ◌&&◌, List, [], ◌∷◌, Text,
  if◌then◌else◌, ◌==◌, length,
}
use linux_unix_system_progra.Sys.{
  Errno, eexist, Reply, ok, fail, sigint, sigpipe, handler, sig_ign, o_rdonly, o_wronly, Arg, int,
  str, printf, eprintf, perror, sigaction, umask, mkfifo, open_file, read, write, unlink, M, ◌>>=◌,
  ◌>>◌, pure, call, exit, say, returned, Round, next, leave, loop,
}
use linux_unix_system_progra.Fifo.Wire.{
  word, Request, request_size, response_size, decode_request, encode_response, server_fifo,
  client_fifo,
}

-- perror(message); exit(EXIT_FAILURE);
abbrev pub fault : {A : Type 0} → String → M A
fault s = call (perror s) >> exit 1

abbrev pub is_eexist : Errno → Bool
is_eexist eexist = true
is_eexist _ = false

-- The handler of SIGINT.
pub on_sigint : M (Unit {0})
on_sigint = do
  removed ← call (unlink server_fifo)
  elim removed [
    | ok _ ↦ say "SERVER_FIFO is deleted.\n"
    | fail e ↦ say "Delete SERVER_FIFO failed\n"
  ]
  exit 0

-- Lines 79 to 96: the answer to a request, with the sequence number so far as a bit pattern. The fields
-- of a request are `int`s; the overflow of the sum is undefined in C, and wraps around here.
pub answer : ℕ → Request → M (Round ℕ (Unit {0}))
answer seq_num req = do
  call (
      printf "Got message from PID: %ld, seqNum: %d\n"
        (int (bits_int req.pid) ∷ int (bits_int req.seq_len) ∷ []))
  let name = client_fifo (bits_int req.pid)
  call (printf "clientFifo catenated success: %s\n" (str name ∷ []))
  opened ← call (open_file name (o_wronly ∷ []) 0)
  elim opened [
    | fail e ↦ do call (eprintf "open clientFd\n" []); pure (next seq_num)
    | ok client_fd ↦ do
      say "open clientFifo success\n"
      let seq_num' = (seq_num + req.seq_len) % word
      written ← call (write client_fd (encode_response seq_num') response_size)
      if returned written response_size
          then say "write clientFd success\n"
          else (do call (eprintf "write clientFifo error\n" []); pure tt)
      pure (next seq_num')
  ]

-- What a read on the server FIFO returned: only a whole request is served.
pub on_read : ℕ → Reply Text → M (Round ℕ (Unit {0}))
unfolding answer
on_read seq_num (ok bs) =
    if length bs == request_size
    then answer seq_num (decode_request bs)
    else do call (eprintf "Error reading request; discarding\n" []); pure (next seq_num)
on_read seq_num (fail e) = do
  call (eprintf "Error reading request; discarding\n" [])
  pure (next seq_num)

pub serve_round : ℕ → ℕ → M (Round ℕ (Unit {0}))
unfolding on_read
serve_round server_fd seq_num = do got ← call (read server_fd request_size); on_read seq_num got

pub set_up : M ℕ
set_up = do
  caught ← call (sigaction sigint handler)
  elim caught [ ok _ ↦ pure tt | fail e ↦ fault "sigaction SIGINT" ]
  ignored ← call (sigaction sigpipe sig_ign)
  elim ignored [ ok _ ↦ pure tt | fail e ↦ fault "sigaction SIGPIPE" ]
  call (umask 0)
  made ← call (mkfifo server_fifo 0o620)
  elim made [ ok _ ↦ pure tt | fail e ↦ if is_eexist e then fault "mkfifo" else pure tt ]
  say "SERVER_FIFO is successfully made\n"
  opened ← call (open_file server_fifo (o_rdonly ∷ []) 0)
  server_fd ← elim opened [ ok fd ↦ pure fd | fail e ↦ fault "open SERVER_FIFO" ]
  say "open SERVER_FIFO success, mode: O_RDONLY\n"
  dummy ← call (open_file server_fifo (o_wronly ∷ []) 0)
  elim dummy [ ok fd ↦ pure tt | fail e ↦ fault "open SERVER_FIFO dummyFd" ]
  say "open SERVER_FIFO success, it is dummyFd\n"
  pure server_fd

pub main : ℕ → M (Unit {0})
unfolding set_up
main fuel = do server_fd ← set_up; loop fuel (serve_round server_fd) 0
