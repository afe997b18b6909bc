-- ===== src/Tcp/SendFile.antt =====
-- hplsp/chapter6/3_sendfile.cpp: sends a file to one connection.
use linux_unix_system_progra.Prelude.{ℕ, not, leb, [], ◌∷◌, List, Text, length, if◌then◌else◌}
use linux_unix_system_progra.Sys.{
  ok, fail, o_rdonly, accept, open_file, fstat_size, sendfile, close, M, ◌>>=◌, ◌>>◌, pure, call,
  say, exit, arg, asserted, returned,
}
use linux_unix_system_progra.Tcp.Listener.{listener}
use linux_unix_system_progra.PosixShm.Read.{st_size}

-- `garbage` is what `st_size` holds when fstat fails. The file is not closed.
unfoldable pub send_file : ℕ → ℕ → ℕ → Text → M ℕ
send_file garbage sock_fd cli_fd path = do
  file_fd ← asserted (← call (open_file path (o_rdonly ∷ []) 0))
  stat ← call (fstat_size file_fd)
  let size = st_size garbage stat
  sent ← call (sendfile cli_fd file_fd size)
  if not (returned sent size) then say "Partial write\n" else pure tt
  call (close sock_fd)
  call (close cli_fd)
  pure 0

unfoldable pub serve : ℕ → ℕ → Text → M ℕ
unfolding send_file
serve garbage sock_fd path = do
  accepted ← call (accept sock_fd)
  elim accepted [
    | fail e ↦ do call (close sock_fd); exit 1
    | ok cli_fd ↦ send_file garbage sock_fd cli_fd path
  ]

unfoldable pub main : ℕ → List Text → M ℕ
unfolding serve
main garbage argv =
    if leb (length argv) 3 then (do say "usage:%s ip_address port_number\n"; pure 1) else (do
      ip ← arg argv 1
      port ← arg argv 2
      sock_fd ← listener ip port
      path ← arg argv 3
      serve garbage sock_fd path)
