-- ===== src/Tcp/ChatClient.antt =====
-- hplsp/chapter9/9_6_chatroom_client.cpp: shows what the server sends, and sends standard input.
use linux_unix_system_progra.Prelude.{
  ℕ, ◌++◌, pos, negsuc, Bool, Option, none, some, List, [], ◌∷◌, Text, leb, length, drop,
  if◌then◌else◌, c_string,
}
use linux_unix_system_progra.Sys.{
  Reply, ok, fail, End, num, int, str, printf, other_family, sock_stream, inet4, inet_pton4, socket,
  connect4, pipe, poll_two, fd_recv, splice, close, M, ◌>>=◌, ◌>>◌, pure, call, halt, say, arg,
  asserted, Round, next, leave, loop,
}
use linux_unix_system_progra.Epoll.Trigger.{parsed, port_of}

abbrev pub buf_size : ℕ
buf_size = 1024

abbrev pub piece : ℕ
piece = 32768

-- printf("%d bytes received: %s\n", num, buf) for the buffer; one without a terminator is read past its
-- end.
abbrev pub show_buffer : Reply Text → Option Text → M (Unit {0})
show_buffer received none = halt End.undefined
show_buffer (ok bs) (some s) =
    call (printf "%d bytes received: %s\n" (num (length bs) ∷ str s ∷ []))
show_buffer (fail e) (some s) =
    call (printf "%d bytes received: %s\n" (int (negsuc 0) ∷ str s ∷ []))

-- The buffer after `recv`. memset(buf, 1024, 0) clears nothing: its last two arguments are swapped.
abbrev pub refilled : Text → Reply Text → Text
refilled buf (ok bs) = bs ++ drop (length bs) buf
refilled buf (fail e) = buf

unfoldable pub on_input : ℕ → Text → M (Round Text (Unit {0}))
on_input sockfd buf = do
  received ← call (fd_recv (pos sockfd) buf_size)
  show_buffer received (c_string (refilled buf received))
  pure (next (refilled buf received))

-- The results of both splices are overwritten and not looked at.
unfoldable pub on_ready : ℕ → ℕ × ℕ → Text → Bool → Bool → Bool → M (Round Text (Unit {0}))
unfolding on_input
on_ready sockfd fds buf std_in input hung_up =
    if input
    then on_input sockfd buf
    else if std_in
    then (do call (splice 0 fds.1 piece); call (splice fds.0 sockfd piece); pure (next buf))
    else if hung_up
    then (do say "server close the connection\n"; pure (leave tt))
    else pure (next buf)

unfoldable pub poll_round : ℕ → ℕ × ℕ → Text → M (Round Text (Unit {0}))
unfolding on_ready
poll_round sockfd fds buf = do
  ready ← asserted (← call (poll_two sockfd))
  on_ready sockfd fds buf ready.0 ready.1 ready.2

unfoldable pub talk : ℕ → Text → ℕ → ℕ × ℕ → M ℕ
unfolding poll_round
talk fuel garbage sockfd fds = do
  loop fuel (poll_round sockfd fds) garbage
  call (close sockfd)
  pure 0

-- The status -1 of the usage message is 255 to the parent; basename(argv[0]) is left out of it.
-- `garbage` is what the buffer holds at first.
unfoldable pub main : ℕ → Text → List Text → M ℕ
unfolding talk
main fuel garbage argv =
    if leb (length argv) 2 then (do say "usage:%s ip_address port_number\n"; pure 255) else (do
      ip ← arg argv 1
      port ← arg argv 2
      sockfd ← asserted (← call (socket (other_family 2) sock_stream 0))
      found ← call (inet_pton4 ip)
      asserted (← call (connect4 sockfd (inet4 (parsed found) (port_of port))))
      fds ← asserted (← call pipe)
      talk fuel garbage sockfd fds)
