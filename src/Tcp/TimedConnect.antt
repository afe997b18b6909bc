-- ===== src/Tcp/TimedConnect.antt =====
-- hplsp/chapter11/11_1_connect_timeout.cpp: connects with a limit on the time.
pub mod Result
use linux_unix_system_progra.Prelude.{
  ℕ, ℤ, pos, Bool, true, false, Option, none, some, List, [], ◌∷◌, Text, leb, length, if◌then◌else◌,
}
use linux_unix_system_progra.Sys.{
  Errno, einprogress, Reply, ok, fail, other_family, sock_stream, inet4, inet_pton4, socket,
  set_sndtimeo, connect4, M, ◌>>=◌, ◌>>◌, pure, call, say, arg, asserted,
}
use linux_unix_system_progra.Epoll.Trigger.{parsed, port_of}

abbrev pub is_einprogress : Errno → Bool
is_einprogress einprogress = true
is_einprogress _ = false

-- What follows `connect`. The -1 of the program is `none`; the socket stays open.
unfoldable pub after_connect : ℕ → Reply (Unit {0}) → M (Option ℕ)
after_connect cfd (fail e) =
    if is_einprogress e
    then (do say "connect timeout!\n"; pure none)
    else (do say "error occur when connecting to server\n"; pure none)
after_connect cfd (ok _) = do say "Connectiong success.\n"; pure (some cfd)

unfoldable pub timeout_connect : Text → Text → ℤ → M (Option ℕ)
unfolding after_connect
timeout_connect ip port time = do
  found ← call (inet_pton4 ip)
  cfd ← asserted (← call (socket (other_family 2) sock_stream 0))
  asserted (← call (set_sndtimeo cfd time))
  say "Starting connect\n"
  connected ← call (connect4 cfd (inet4 (parsed found) (port_of port)))
  after_connect cfd connected

abbrev pub status : Option ℕ → ℕ
status none = 1
status (some sockfd) = 0

-- The name of the program is left out of the usage message.
unfoldable pub main : List Text → M ℕ
unfolding timeout_connect
main argv =
    if leb (length argv) 2 then (do say "usage:%s ip_address port_number\n"; pure 1) else (do
      ip ← arg argv 1
      port ← arg argv 2
      sockfd ← timeout_connect ip port (pos 10)
      pure (status sockfd))
