-- ===== src/Epoll/Trigger.antt =====
-- hplsp/chapter9/9_3_epoll_LT_ET.cpp: shows what comes in, level triggered or edge triggered.
use linux_unix_system_progra.Prelude.{
  ℕ, ◌-◌, ◌%◌, ◌^◌, ◌++◌, ℤ, negsuc, Bool, true, false, Option, none, some, List, [], ◌∷◌, Text,
  leb, length, drop, replicate, if◌then◌else◌, atoi, int_eq, int_bits, until_nul,
}
use linux_unix_system_progra.Sys.{
  Errno, eagain, Reply, ok, fail, OpenFlag, o_nonblock, epollin, epollet, Ready, other_family,
  sock_stream, inet4, num, int, str, printf, get_flags, socket, fd_bind, fd_listen, fd_accept,
  fd_close, fd_recv, inet_pton4, epoll_create, epoll_add, epoll_wait, load_errno, M, ◌>>=◌, ◌>>◌,
  pure, call, say, arg, int_of, asserted, Round, next, leave, loop,
}

abbrev pub buf_size : ℕ
buf_size = 10

abbrev pub max_event_number : ℕ
max_event_number = 1024

-- The flags with O_NONBLOCK, which are returned and not set.
abbrev pub with_nonblock : Reply (List OpenFlag) → Option (List OpenFlag)
with_nonblock (ok flags) = some (o_nonblock ∷ flags)
with_nonblock (fail e) = none

unfoldable pub set_nonblocking : ℤ → M (Option (List OpenFlag))
set_nonblocking fd = do option ← call (get_flags fd); pure (with_nonblock option)

unfoldable pub add_fd : ℕ → ℤ → Bool → M (Unit {0})
unfolding set_nonblocking
add_fd epollfd fd enable_et = do
  call (epoll_add epollfd fd (if enable_et then epollet ∷ epollin ∷ [] else epollin ∷ []))
  set_nonblocking fd
  pure tt

-- What is shown of a buffer of zeros that `recv` has put these bytes into.
abbrev pub shown : Text → Text
shown bs = until_nul (bs ++ 0 ∷ [])

-- The answer to one `recv`, after the listening descriptor and other events are out of the way.
unfoldable pub lt_input : ℤ → M (Unit {0})
lt_input cfd = do
  say "event trigger once\n"
  ret ← call (fd_recv cfd (buf_size - 1))
  elim ret [
    | ok [] ↦ do call (fd_close cfd); pure tt
    | ok (b ∷ bs) ↦ do
      call (
          printf "get %d bytes of content:%s\n" (num (length (b ∷ bs)) ∷ str (shown (b ∷ bs)) ∷ []))
      pure tt
    | fail e ↦ do
      call (printf "get %d bytes of content:%s\n" (int (negsuc 0) ∷ str [] ∷ []))
      pure tt
  ]

unfoldable pub lt_event : ℕ → ℤ → Ready → M (Unit {0})
unfolding add_fd lt_input
lt_event epollfd lfd ev =
    if int_eq ev.fd lfd
    then (do cfd ← call (fd_accept lfd); add_fd epollfd (int_of cfd) false)
    else if ev.has_input
    then lt_input ev.fd
    else (do say "Something went wrong!\n"; pure tt)

unfoldable pub lt : List Ready → ℕ → ℤ → M (Unit {0})
unfolding lt_event
lt [] epollfd lfd = pure tt
lt (ev ∷ evs) epollfd lfd = lt_event epollfd lfd ev >> lt evs epollfd lfd

abbrev is_eagain : Errno → Bool
is_eagain eagain = true
is_eagain _ = false

-- After `ret <= 0`.
abbrev et_failed : Text → Errno → M (Round Text (Unit {0}))
et_failed buf e = if is_eagain e then (do say "All read\n"; pure (leave tt)) else pure (next buf)

-- One round of the inner loop; `buf` is the buffer. At the end of the input, `errno` is as it was, and
-- `ret = 0` in the next condition assigns 0, so that other results are shown as 0 bytes.
pub et_round : ℤ → Text → M (Round Text (Unit {0}))
et_round cfd buf = do
  ret ← call (fd_recv cfd (buf_size - 1))
  elim ret [
    | fail e ↦ et_failed buf e
    | ok [] ↦ do old ← call load_errno; et_failed buf old
    | ok (b ∷ bs) ↦ do
      let new = b ∷ bs ++ drop (length (b ∷ bs)) buf
      call (printf "get %d bytes of content:%s\n" (num 0 ∷ str (until_nul new) ∷ []))
      pure (next new)
  ]

pub et_event : ℕ → ℕ → ℤ → Ready → M (Unit {0})
unfolding add_fd et_round
et_event fuel epollfd lfd ev =
    if int_eq ev.fd lfd
    then (do cfd ← call (fd_accept lfd); add_fd epollfd (int_of cfd) true)
    else if ev.has_input
    then (do
      say "event will only be triggered once.\n"
      loop fuel (et_round ev.fd) (replicate buf_size 0))
    else (do say "something else happened\n"; pure tt)

-- Main calls lt only.
pub et : ℕ → List Ready → ℕ → ℤ → M (Unit {0})
unfolding et_event
et fuel [] epollfd lfd = pure tt
et fuel (ev ∷ evs) epollfd lfd = et_event fuel epollfd lfd ev >> et fuel evs epollfd lfd

unfoldable pub on_events : ℕ → ℤ → Reply (List Ready) → M (Round (Unit {0}) (Unit {0}))
unfolding lt
on_events epollfd lfd (fail e) = do say "epoll failure\n"; pure (leave tt)
on_events epollfd lfd (ok evs) = do lt evs epollfd lfd; pure (next tt)

unfoldable pub wait_round : ℕ → ℤ → Unit {0} → M (Round (Unit {0}) (Unit {0}))
unfolding on_events
wait_round epollfd lfd _ = do
  ret ← call (epoll_wait epollfd max_event_number)
  on_events epollfd lfd ret

-- An address that is no text of one stays 0.0.0.0; the port is cut to 16 bits.
abbrev pub parsed : Reply (Option Text) → Option Text
parsed (ok a) = a
parsed (fail e) = none

abbrev pub port_of : Text → ℕ
port_of port = int_bits (atoi port) % 2 ^ 16

-- The listening socket, which may be -1 until `bind` fails.
unfoldable pub set_up : Text → Text → M ℤ
set_up ip port = do
  found ← call (inet_pton4 ip)
  lfd ← call (socket (other_family 2) sock_stream 0)
  asserted (← call (fd_bind (int_of lfd) (inet4 (parsed found) (port_of port))))
  asserted (← call (fd_listen (int_of lfd) 5))
  pure (int_of lfd)

unfoldable pub after_create : ℕ → ℤ → ℕ → M ℕ
unfolding add_fd wait_round
after_create fuel lfd epollfd = do
  add_fd epollfd lfd true
  loop fuel (wait_round epollfd lfd) tt
  call (fd_close lfd)
  pure 0

unfoldable pub serve : ℕ → ℤ → M ℕ
unfolding after_create
serve fuel lfd = do epollfd ← asserted (← call (epoll_create 5)); after_create fuel lfd epollfd

-- basename(argv[0]) is left out of the message.
unfoldable pub main : ℕ → List Text → M ℕ
unfolding set_up serve
main fuel argv =
    if leb (length argv) 2
    then (do say "usage:%s ip_address port_number\n"; pure 1)
    else (do ip ← arg argv 1; port ← arg argv 2; lfd ← set_up ip port; serve fuel lfd)
