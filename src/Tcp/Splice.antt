-- ===== src/Tcp/Splice.antt =====
-- hplsp/chapter6/4_splice.cpp: sends one piece of a connection back, through a pipe.
use linux_unix_system_progra.Prelude.{ℕ, leb, List, Text, length, if◌then◌else◌}
use linux_unix_system_progra.Sys.{
  ok, fail, End, accept, pipe, splice, close, M, ◌>>=◌, ◌>>◌, pure, call, halt, say, exit, arg,
  asserted,
}
use linux_unix_system_progra.Tcp.Listener.{listener}

abbrev pub piece : ℕ
piece = 32768

-- From the connection into the pipe, and back. The result of `pipe` is not looked at: after the call,
-- `assert` is on another variable; where it fails, the numbers of the pipe are garbage.
unfoldable pub echo : ℕ → M (Unit {0})
echo cfd = do
  made ← call pipe
  elim made [
    | fail e ↦ halt End.undefined
    | ok fds ↦ do
      asserted (← call (splice cfd fds.1 piece))
      asserted (← call (splice fds.0 cfd piece))
      pure tt
  ]

unfoldable pub serve : ℕ → M ℕ
unfolding echo
serve lfd = do
  accepted ← call (accept lfd)
  elim accepted [
    | fail e ↦ do say "accept failed\n"; call (close lfd); exit 1
    | ok cfd ↦ do echo cfd; call (close cfd); call (close lfd); pure 0
  ]

-- basename(argv[0]) is left out of the message.
unfoldable pub main : List Text → M ℕ
unfolding serve
main argv =
    if leb (length argv) 2
    then (do say "usage:%s ip_address port_number\n"; pure 1)
    else (do ip ← arg argv 1; port ← arg argv 2; lfd ← listener ip port; serve lfd)
