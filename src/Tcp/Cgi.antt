-- ===== src/Tcp/Cgi.antt =====
-- hplsp/chapter6/1_CGI.cpp: answers one connection through standard output.
use linux_unix_system_progra.Prelude.{ℕ, pos, leb, List, Text, length, if◌then◌else◌}
use linux_unix_system_progra.Sys.{
  ok, fail, accept, dup2, close, M, ◌>>=◌, ◌>>◌, pure, call, say, exit, arg,
}
use linux_unix_system_progra.Tcp.Listener.{listener}

unfoldable pub answer : ℕ → ℕ → M ℕ
answer sock_fd cli_fd = do
  copied ← call (dup2 cli_fd (pos 1))
  elim copied [
    | fail e ↦ do call (close sock_fd); call (close cli_fd); exit 1
    | ok _ ↦ do say "Hello, I am CGI server\n"; call (close sock_fd); call (close cli_fd); pure 0
  ]

unfoldable pub serve : ℕ → M ℕ
unfolding answer
serve sock_fd = do
  accepted ← call (accept sock_fd)
  elim accepted [ fail e ↦ do call (close sock_fd); exit 1 | ok cli_fd ↦ answer sock_fd cli_fd ]

unfoldable pub main : List Text → M ℕ
unfolding serve
main argv =
    if leb (length argv) 2
    then (do say "usage:%s ip_address port_number\n"; pure 1)
    else (do ip ← arg argv 1; port ← arg argv 2; sock_fd ← listener ip port; serve sock_fd)
