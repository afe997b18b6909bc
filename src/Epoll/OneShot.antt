-- ===== src/Epoll/OneShot.antt =====
-- hplsp/chapter9/9_4_EPOLLONESHOT.cpp: a thread for each descriptor with input.
use linux_unix_system_progra.Prelude.{
  ℕ, ◌-◌, ◌++◌, ℤ, pos, Bool, true, false, Option, List, [], ◌∷◌, Text, leb, length, drop,
  replicate, if◌then◌else◌, int_eq, until_nul,
}
use linux_unix_system_progra.Sys.{
  Errno, eagain, ok, fail, OpenFlag, epollin, epollet, epolloneshot, Ready, num, int, str, printf,
  get_flags, set_flags, fd_accept, fd_close, fd_recv, epoll_create, epoll_add, epoll_mod,
  epoll_wait, worker_create, sleep, aborted, M, ◌>>=◌, ◌>>◌, pure, call, halt, say, arg, int_of,
  asserted, failed, Round, next, leave, loop,
}
use linux_unix_system_progra.Epoll.Trigger.{with_nonblock, set_up}

abbrev pub buffer_size : ℕ
buffer_size = 1024

abbrev pub max_event_number : ℕ
max_event_number = 1024

pub set_noblocking : ℤ → M (Option (List OpenFlag))
set_noblocking fd = do
  flags ← call (get_flags fd)
  call (set_flags fd (with_nonblock flags))
  call (printf " fd %d has been set as O_NONBLOCK.\n" (int fd ∷ []))
  pure (with_nonblock flags)

-- `if(ret)` holds when the call failed.
unfoldable pub add_fd : ℕ → ℤ → Bool → M (Unit {0})
unfolding set_noblocking
add_fd epollfd fd oneshot = do
  let flags = if oneshot then epolloneshot ∷ epollin ∷ epollet ∷ [] else epollin ∷ epollet ∷ []
  ret ← call (epoll_add epollfd fd flags)
  if failed ret
      then call
          (printf " fd %d has been added to the epoll instance %d\n" (int fd ∷ num epollfd ∷ []))
      else pure tt
  set_noblocking fd
  pure tt

unfoldable pub reset_oneshot : ℕ → ℤ → M (Unit {0})
reset_oneshot epollfd fd = do
  ret ← call (epoll_mod epollfd fd (epollin ∷ epollet ∷ epolloneshot ∷ []))
  if failed ret
      then call (printf " fd %d has been reseted as EPOLLONESHOT\n" (int fd ∷ num epollfd ∷ []))
      else pure tt

abbrev is_eagain : Errno → Bool
is_eagain eagain = true
is_eagain _ = false

-- `buf` is the buffer, which the first `memset` cleared.
unfoldable pub worker_round : ℕ → ℤ → Text → M (Round Text (Unit {0}))
unfolding reset_oneshot
worker_round epollfd sockfd buf = do
  ret ← call (fd_recv sockfd (buffer_size - 1))
  elim ret [
    | ok [] ↦ do say "foreiner closed the connection\n"; call (fd_close sockfd); pure (next buf)
    | fail e ↦
        if is_eagain e
        then (do say "Read later.\n"; reset_oneshot epollfd sockfd; pure (leave tt))
        else pure (next buf)
    | ok (b ∷ bs) ↦ do
      let new = b ∷ bs ++ drop (length (b ∷ bs)) buf
      call (printf "get content:%s\n" (str (until_nul new) ∷ []))
      call (sleep (pos 5))
      pure (next new)
  ]

unfoldable pub worker : ℕ → ℕ → ℤ → M (Unit {0})
unfolding worker_round
worker fuel epollfd sockfd = do
  loop fuel (worker_round epollfd sockfd) (replicate buffer_size 0)
  call (printf "end thread receiving data on fd:%d\n" (int sockfd ∷ []))

-- The pair of descriptors that a worker gets lives in the loop of main; a worker is taken to read it
-- before main goes on.
unfoldable pub handle_event : ℕ → ℤ → Ready → M (Unit {0})
unfolding add_fd
handle_event epollfd lfd ev =
    if int_eq ev.fd lfd
    then (do cfd ← call (fd_accept lfd); add_fd epollfd (int_of cfd) true)
    else if ev.has_input
    then (do call (worker_create epollfd ev.fd); pure tt)
    else (do say "something else happened\n"; pure tt)

unfoldable pub handle_events : ℕ → ℤ → List Ready → M (Unit {0})
unfolding handle_event
handle_events epollfd lfd [] = pure tt
handle_events epollfd lfd (ev ∷ evs) = handle_event epollfd lfd ev >> handle_events epollfd lfd evs

unfoldable pub wait_round : ℕ → ℤ → Unit {0} → M (Round (Unit {0}) ℕ)
unfolding handle_events
wait_round epollfd lfd _ = do
  ready ← call (epoll_wait epollfd max_event_number)
  elim ready [
    | fail e ↦ halt aborted
    | ok [] ↦ halt aborted
    | ok (ev ∷ evs) ↦ do handle_events epollfd lfd (ev ∷ evs); pure (next tt)
  ]

unfoldable pub serve : ℕ → ℤ → M ℕ
unfolding add_fd wait_round
serve fuel lfd = do
  epollfd ← asserted (← call (epoll_create 5))
  add_fd epollfd lfd false
  loop fuel (wait_round epollfd lfd) tt

-- basename(argv[0]) is left out of the message. The address is set up as in 9_3_epoll_LT_ET.cpp.
unfoldable pub main : ℕ → List Text → M ℕ
unfolding serve
main fuel argv =
    if leb (length argv) 2
    then (do say "usage:%s ip_address port_number\n"; pure 1)
    else (do ip ← arg argv 1; port ← arg argv 2; lfd ← set_up ip port; serve fuel lfd)
