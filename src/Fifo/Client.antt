-- ===== src/Fifo/Client.antt =====
-- TLPI/chapter44/FIFO_SERVER_CLIENT/fifo_seqnum_client.c: asks the server for sequence numbers.
mod Examples
pub mod Outcome
use linux_unix_system_progra.Prelude.{
  ℕ, pos, String, Bool, true, false, ◌&&◌, List, [], ◌∷◌, Text, codes, text_eq, if◌then◌else◌, ◌==◌,
  ltb, length, atoi,
}
use linux_unix_system_progra.Sys.{
  Reply, ok, fail, o_rdonly, o_wronly, str, num, printf, perror, getpid, mkfifo, open_file, read,
  write, unlink, register_atexit, M, ◌>>=◌, ◌>>◌, pure, call, exit, say, returned, arg,
}
use linux_unix_system_progra.Fifo.Wire.{
  word_of, Request, request_size, response_size, encode_request, of_le32, server_fifo, client_fifo,
}
use linux_unix_system_progra.Fifo.Server.{fault, is_eexist}

-- The exit handler.
pub remove_fifo : Text → M (Unit {0})
remove_fifo name = do
  removed ← call (unlink name)
  elim removed [ ok _ ↦ say "clientFifo is deleted.\n" | fail e ↦ say "Delete clientFifo failed\n" ]

-- perror(message); exit(EXIT_FAILURE); once the handler is registered.
pub fault_removing : {A : Type 0} → Text → String → M A
unfolding remove_fifo
fault_removing name s = do call (perror s); remove_fifo name; exit 1

-- The count of a read, to compare with a size.
abbrev read_whole : Reply Text → ℕ → Bool
read_whole (ok bs) n = length bs == n
read_whole (fail e) n = false

-- Lines 72 to 82. The count of the reply is compared with the size of a request.
pub conclude : Text → Reply Text → M (Unit {0})
unfolding fault_removing
conclude name got = do
  if read_whole got request_size then pure tt else fault_removing name "read rsp"
  say "read clientFd success\n"
  call (printf "received: %l\n" [])
  remove_fifo name

-- Lines 57 to 72.
pub ask : Text → ℕ → Request → M (Unit {0})
unfolding fault_removing
ask name server_fd req = do
  written ← call (write server_fd (encode_request req) request_size)
  if returned written request_size then pure tt else fault_removing name "write req"
  say "write serverFd success\n"
  opened ← call (open_file name (o_rdonly ∷ []) 0)
  client_fd ← elim opened [ ok fd ↦ pure fd | fail e ↦ fault_removing name "open clientFd" ]
  say "open clientFifo success, mode: O_RDONLY\n"
  got ← call (read client_fd response_size)
  conclude name got

pub main : List Text → M (Unit {0})
unfolding text_eq ask
main argv = do
  help ←
      if ltb 1 (length argv)
      then (do first ← arg argv 1; pure (text_eq first (codes "--help")))
      else pure false
  if help
      then (do program ← arg argv 0; call (printf "%s [seq-len...]\n" (str program ∷ [])); exit 1)
      else pure tt
  pid ← call getpid
  let name = client_fifo (pos pid)
  call (printf "clientFifo catenated success: %s\n" (str name ∷ []))
  first ← arg argv 1
  let seq_len = word_of (atoi first)
  pid ← call getpid
  opened ← call (open_file server_fifo (o_wronly ∷ []) 0)
  server_fd ← elim opened [ ok fd ↦ pure fd | fail e ↦ fault "open SERVER_FIFO" ]
  say "open SERVER_FIFO success, mode: O_WRONLY\n"
  made ← call (mkfifo name 0o620)
  elim made [ ok _ ↦ pure tt | fail e ↦ if is_eexist e then fault "mkfifo" else pure tt ]
  say "clientFifo is successfully created\n"
  registered ← call register_atexit
  elim registered [ ok _ ↦ pure tt | fail e ↦ fault "atexit" ]
  ask name server_fd (record { seq_len = seq_len; pid = pid })
