-- ===== src/Epoll/TcpUdp.antt =====
-- hplsp/chapter9/9_8_TCP_UDP.cpp: sends back what comes in, over TCP and over UDP.
use linux_unix_system_progra.Prelude.{
  ℕ, ◌-◌, ◌++◌, ℤ, pos, Bool, true, false, String, Option, none, some, List, [], ◌∷◌, Text, leb,
  ltb, length, replicate, if◌then◌else◌, int_eq, c_string,
}
use linux_unix_system_progra.Sys.{
  Errno, eagain, Reply, ok, fail, OpenFlag, epollin, epollet, Ready, Addr, other_family,
  sock_stream, sock_dgram, inet4, str, printf, get_flags, set_flags, socket, fd_bind, fd_listen,
  fd_accept, fd_close, fd_recv, fd_recvfrom, fd_send, fd_sendto, inet_pton4, epoll_create,
  epoll_add, epoll_wait, aborted, undefined, M, ◌>>=◌, ◌>>◌, pure, call, halt, say, arg, or_die,
  int_of, asserted, Round, next, leave, loop,
}
use linux_unix_system_progra.Epoll.Trigger.{with_nonblock, parsed, port_of}

abbrev pub max_event_number : ℕ
max_event_number = 1024

abbrev pub tcp_buffer_size : ℕ
tcp_buffer_size = 512

abbrev pub udp_buffer_size : ℕ
udp_buffer_size = 1024

-- printf("...%s\n", buf); a full buffer has no terminator.
abbrev pub show_text : String → Option Text → M (Unit {0})
show_text message none = halt undefined
show_text message (some s) = call (printf message (str s ∷ []))

-- The flags before are returned.
unfoldable pub setnonblocking : ℤ → M (Reply (List OpenFlag))
setnonblocking fd = do
  old_option ← call (get_flags fd)
  call (set_flags fd (with_nonblock old_option))
  pure old_option

unfoldable pub addfd : ℕ → ℤ → M (Unit {0})
unfolding setnonblocking
addfd epollfd fd = do
  call (epoll_add epollfd fd (epollin ∷ epollet ∷ []))
  setnonblocking fd
  pure tt

-- A buffer of this size that was cleared and has these bytes at its front.
abbrev pub filled : ℕ → Text → Text
filled size bs = bs ++ replicate (size - length bs) 0

abbrev is_eagain : Errno → Bool
is_eagain eagain = true
is_eagain _ = false

abbrev pub positive : Reply ℕ → M (Unit {0})
positive (ok n) = if ltb 0 n then pure tt else halt aborted
positive (fail e) = halt aborted

-- What `recvfrom` returned goes back, in a full buffer.
unfoldable pub udp_answer : ℕ → Reply (Text × Addr) → M (Unit {0})
udp_answer udpfd (fail e) = halt aborted
udp_answer udpfd (ok ([], from)) = halt aborted
udp_answer udpfd (ok (b ∷ bs, from)) = do
  let udpbuf = filled udp_buffer_size (b ∷ bs)
  show_text "UDP read: %s\n" (c_string udpbuf)
  sent ← call (fd_sendto (pos udpfd) udpbuf udp_buffer_size from)
  positive sent

unfoldable pub udp_event : ℕ → M (Unit {0})
unfolding udp_answer
udp_event udpfd = do num ← call (fd_recvfrom (pos udpfd) udp_buffer_size); udp_answer udpfd num

unfoldable pub tcp_round : ℤ → Unit {0} → M (Round (Unit {0}) (Unit {0}))
tcp_round fd _ = do
  num ← call (fd_recv fd tcp_buffer_size)
  elim num [
    | fail e ↦ if is_eagain e then pure (leave tt) else (do call (fd_close fd); pure (leave tt))
    | ok [] ↦ do call (fd_close fd); pure (next tt)
    | ok (b ∷ bs) ↦ do
      let tcpbuf = filled tcp_buffer_size (b ∷ bs)
      call (fd_send fd tcpbuf tcp_buffer_size)
      show_text "TCP read: %s\n" (c_string tcpbuf)
      pure (next tt)
  ]

unfoldable pub handle_event : ℕ → ℕ → ℕ → ℕ → Ready → M (Unit {0})
unfolding addfd udp_event tcp_round
handle_event fuel epollfd lfd udpfd ev =
    if int_eq ev.fd (pos lfd)
    then (do cfd ← call (fd_accept (pos lfd)); addfd epollfd (int_of cfd))
    else if int_eq ev.fd (pos udpfd)
    then udp_event udpfd
    else if ev.has_input
    then loop fuel (tcp_round ev.fd) tt
    else (do say "Something  happened\n"; pure tt)

unfoldable pub handle_events : ℕ → ℕ → ℕ → ℕ → List Ready → M (Unit {0})
unfolding handle_event
handle_events fuel epollfd lfd udpfd [] = pure tt
handle_events fuel epollfd lfd udpfd (ev ∷ evs) =
    handle_event fuel epollfd lfd udpfd ev >> handle_events fuel epollfd lfd udpfd evs

unfoldable pub wait_round : ℕ → ℕ → ℕ → ℕ → Unit {0} → M (Round (Unit {0}) ℕ)
unfolding handle_events
wait_round fuel epollfd lfd udpfd _ = do
  evs ← or_die "epoll_wait failed\n" 1 (← call (epoll_wait epollfd max_event_number))
  handle_events fuel epollfd lfd udpfd evs
  pure (next tt)

-- The two sockets, on the same address and port.
unfoldable pub set_up : Text → Text → M (ℕ × ℕ)
set_up ip port = do
  found ← call (inet_pton4 ip)
  let saddr = inet4 (parsed found) (port_of port)
  lfd ← asserted (← call (socket (other_family 2) sock_stream 0))
  asserted (← call (fd_bind (pos lfd) saddr))
  asserted (← call (fd_listen (pos lfd) 5))
  udpfd ← asserted (← call (socket (other_family 2) sock_dgram 0))
  asserted (← call (fd_bind (pos udpfd) saddr))
  pure (lfd, udpfd)

unfoldable pub serve : ℕ → ℕ → ℕ → M ℕ
unfolding addfd wait_round
serve fuel lfd udpfd = do
  epollfd ← or_die "epoll_create failedl.\n" 1 (← call (epoll_create 5))
  addfd epollfd (pos lfd)
  addfd epollfd (pos udpfd)
  loop fuel (wait_round fuel epollfd lfd udpfd) tt

-- The status -1 of the usage message is 255 to the parent; basename(argv[0]) is left out of it.
unfoldable pub main : ℕ → List Text → M ℕ
unfolding set_up serve
main fuel argv =
    if leb (length argv) 2
    then (do say "usage:%s ip_address port_number\n"; pure 255)
    else (do ip ← arg argv 1; port ← arg argv 2; fds ← set_up ip port; serve fuel fds.0 fds.1)
