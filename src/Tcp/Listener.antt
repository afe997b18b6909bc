-- ===== src/Tcp/Listener.antt =====
-- The socket that 4_splice.cpp, 3_sendfile.cpp and 1_CGI.cpp of hplsp/chapter6 listen on.
use linux_unix_system_progra.Prelude.{ℕ, Text}
use linux_unix_system_progra.Sys.{
  other_family, sock_stream, inet4, inet_pton4, socket, bind, listen, M, ◌>>=◌, ◌>>◌, pure, call,
  asserted,
}
use linux_unix_system_progra.Epoll.Trigger.{parsed, port_of}

-- `int` descriptors that are asserted not to be -1.
unfoldable pub listener : Text → Text → M ℕ
listener ip port = do
  found ← call (inet_pton4 ip)
  lfd ← asserted (← call (socket (other_family 2) sock_stream 0))
  asserted (← call (bind lfd (inet4 (parsed found) (port_of port))))
  asserted (← call (listen lfd 5))
  pure lfd
