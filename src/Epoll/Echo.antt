-- ===== src/Epoll/Echo.antt =====
-- What 9_8_TCP_UDP.cpp sends.
use linux_unix_system_progra.Prelude.{
  ℕ, ◌-◌, ◌≤◌, ◌≡◌, refl, ◌++◌, ℤ, pos, Option, none, some, List, [], ◌∷◌, Text, leb, length, take,
  replicate, int_eq, arith, length-append, length-replicate,
}
use linux_unix_system_progra.Sys.{
  Trace, Kernel, Reply, ok, fail, Ready, Addr, done, fd_recvfrom, fd_recv, fd_send, fd_sendto, next,
  loop, Keeps, bind-Keeps, if-Keeps, arg-Keeps, arg, int_of, or_die, fd_accept, epoll_wait,
  epoll_create, pure, loop-Keeps, M, ◌>>=◌, call, trace,
}
use linux_unix_system_progra.Epoll.TcpUdp.{
  udp_answer, filled, udp_event, tcp_round, setnonblocking, addfd, handle_event, handle_events,
  wait_round, set_up, serve, main, max_event_number,
}

-- The datagram that came last, and the last one that was sent, with the descriptor and the address of
-- the other side. What is sent is as many bytes of the buffer as the count says.
pub last_datagram : Trace → Option (ℤ × Text × Addr)
last_datagram [] = none
last_datagram ((fd_recvfrom fd _, ok d) ∷ t) = some (fd, d.0, d.1)
last_datagram (_ ∷ t) = last_datagram t

pub last_reply : Trace → Option (ℤ × Text × Addr)
last_reply [] = none
last_reply ((fd_sendto fd bs n a, ok _) ∷ t) = some (fd, take n bs, a)
last_reply (_ ∷ t) = last_reply t

length-filled : (n : ℕ) (bs : Text) → length bs ≤ n → length (filled n bs) ≡ n
length-filled n bs le = omega (
  arith,
  length-append bs (replicate (n - length bs) 0),
  length-replicate {A = ℕ} (n - length bs) 0,
  le,
)

abbrev Answered : ℕ → Trace → Type 0
Answered udpfd u =
    (bs : Text) × (from : Addr) × (last_datagram u ≡ some (pos udpfd, bs, from))
    × (last_reply u ≡ some (pos udpfd, take 1024 (bs ++ replicate (1024 - length bs) 0), from))

udp_answer-Answered :
    (udpfd : ℕ) (k : Kernel) (t u : Trace) (x : Unit {0}) (r : Reply (Text × Addr))
    → udp_answer udpfd r k ((fd_recvfrom (pos udpfd) 1024, r) ∷ t) ≡ done x u
    → Answered udpfd u
unfolding udp_answer last_datagram last_reply
udp_answer-Answered udpfd k t u x (fail e) h = ground arith
udp_answer-Answered udpfd k t u x (ok ([], from)) h = ground arith
udp_answer-Answered udpfd k t u x (ok (b ∷ bs, from)) h = (b ∷ bs, from, ground arith, ground arith)

-- Whenever the handling of a datagram returns, the datagram came in on the UDP socket from some sender,
-- and the last thing sent went out on the same socket to this sender and was the first 1024 bytes of the
-- datagram with zeros behind it.
pub udp_event-Answered :
    (udpfd : ℕ) (k : Kernel) (t u : Trace) (x : Unit {0})
    → udp_event udpfd k t ≡ done x u
    → (bs : Text) × (from : Addr) × (last_datagram u ≡ some (pos udpfd, bs, from))
      × (last_reply u ≡ some (pos udpfd, take 1024 (bs ++ replicate (1024 - length bs) 0), from))
unfolding udp_event
udp_event-Answered udpfd k t u x h =
    udp_answer-Answered udpfd k t u x (k t (fd_recvfrom (pos udpfd) 1024)) h

-- Every piece that was sent over TCP was a whole buffer.
pub SendsWhole : Trace → Type 0
SendsWhole [] = Unit
SendsWhole ((fd_send _ bs n, _) ∷ t) = (length bs ≡ n) × (n ≡ 512) × SendsWhole t
SendsWhole (_ ∷ t) = SendsWhole t

module _ (k : Kernel)
    (short : (t : Trace) (fd : ℤ) (n : ℕ) (bs : Text)
      → k t (fd_recv fd n) ≡ ok bs
      → length bs ≤ n) where
  round-SendsWhole :
      (fd : ℤ) (s : Unit {0}) (t : Trace) (r : Reply Text)
      → k t (fd_recv fd 512) ≡ r
      → SendsWhole t
      → SendsWhole (trace (tcp_round fd s k t))
  unfolding tcp_round SendsWhole
  round-SendsWhole fd s t (ok []) e p = ground (arith, e)
  round-SendsWhole fd s t (fail x) e p = ground (arith, e)
  round-SendsWhole fd s t (ok (b ∷ bs)) e p =
      ground (arith, e, length-filled 512 (b ∷ bs) (short t fd 512 (b ∷ bs) e))

  tcp-SendsWhole : (fd : ℤ) (s : Unit {0}) → Keeps SendsWhole k (tcp_round fd s)
  tcp-SendsWhole fd s t p = round-SendsWhole fd s t (k t (fd_recv fd 512)) refl p

  addfd-SendsWhole : (epollfd : ℕ) (fd : ℤ) → Keeps SendsWhole k (addfd epollfd fd)
  unfolding addfd setnonblocking SendsWhole
  addfd-SendsWhole epollfd fd t p = p

  udp-SendsWhole : (udpfd : ℕ) → Keeps SendsWhole k (udp_event udpfd)
  unfolding udp_event udp_answer SendsWhole
  udp-SendsWhole udpfd t p = ground (arith, p)

  module _ (fuel epollfd lfd udpfd : ℕ) where
    event-SendsWhole : (ev : Ready) → Keeps SendsWhole k (handle_event fuel epollfd lfd udpfd ev)
    unfolding handle_event SendsWhole
    event-SendsWhole ev =
        if-Keeps SendsWhole k (int_eq ev.fd (pos lfd)) _ _
          (bind-Keeps SendsWhole k (call (fd_accept (pos lfd))) (λ cfd. addfd epollfd (int_of cfd))
            (λ t p. p) (λ cfd. addfd-SendsWhole epollfd (int_of cfd)))
          (if-Keeps SendsWhole k (int_eq ev.fd (pos udpfd)) _ _ (udp-SendsWhole udpfd) (
            if-Keeps SendsWhole k ev.has_input _ _
              (loop-Keeps SendsWhole k (tcp_round ev.fd) (tcp-SendsWhole ev.fd) fuel tt)
              (λ t p. p)))

    events-SendsWhole :
        (evs : List Ready) → Keeps SendsWhole k (handle_events fuel epollfd lfd udpfd evs)
    unfolding handle_events
    events-SendsWhole [] t p = p
    events-SendsWhole (ev ∷ evs) t p =
        bind-Keeps SendsWhole k (handle_event fuel epollfd lfd udpfd ev)
          (λ _. handle_events fuel epollfd lfd udpfd evs) (event-SendsWhole ev)
          (λ _. events-SendsWhole evs) t p

    wait-SendsWhole :
        Keeps SendsWhole k
          (call (epoll_wait epollfd max_event_number) >>= or_die "epoll_wait failed\n" 1)
    unfolding SendsWhole
    wait-SendsWhole t p = ground (arith, p)

    wait_round-SendsWhole :
        (s : Unit {0}) → Keeps SendsWhole k (wait_round fuel epollfd lfd udpfd s)
    unfolding wait_round
    wait_round-SendsWhole s =
        bind-Keeps SendsWhole k
          (call (epoll_wait epollfd max_event_number) >>= or_die "epoll_wait failed\n" 1)
          (λ evs. handle_events fuel epollfd lfd udpfd evs >>= λ _. pure (next tt)) wait-SendsWhole
          (λ evs.
            bind-Keeps SendsWhole k (handle_events fuel epollfd lfd udpfd evs) (λ _. pure (next tt))
              (events-SendsWhole evs) (λ _ t p. p))

  create-SendsWhole :
      Keeps SendsWhole k (call (epoll_create 5) >>= or_die "epoll_create failedl.\n" 1)
  unfolding SendsWhole
  create-SendsWhole t p = ground (arith, p)

  serve-SendsWhole : (fuel lfd udpfd : ℕ) → Keeps SendsWhole k (serve fuel lfd udpfd)
  unfolding serve
  serve-SendsWhole fuel lfd udpfd =
      bind-Keeps SendsWhole k (call (epoll_create 5) >>= or_die "epoll_create failedl.\n" 1) _
        create-SendsWhole
        (λ epollfd.
          bind-Keeps SendsWhole k (addfd epollfd (pos lfd))
            (λ _. addfd epollfd (pos udpfd) >>= λ _. rounds epollfd)
            (addfd-SendsWhole epollfd (pos lfd))
            (λ _.
              bind-Keeps SendsWhole k (addfd epollfd (pos udpfd)) (λ _. rounds epollfd)
                (addfd-SendsWhole epollfd (pos udpfd))
                (λ _.
                  loop-Keeps SendsWhole k (wait_round fuel epollfd lfd udpfd)
                    (wait_round-SendsWhole fuel epollfd lfd udpfd) fuel tt)))
    where
      rounds : ℕ → M ℕ
      rounds epollfd = loop fuel (wait_round fuel epollfd lfd udpfd) tt

  set_up-SendsWhole : (ip port : Text) → Keeps SendsWhole k (set_up ip port)
  unfolding set_up SendsWhole
  set_up-SendsWhole ip port t p = ground (arith, p)

  -- If a recv returns at most the bytes asked for, then however the server runs, every piece that it
  -- gave to send was a whole buffer of 512 bytes, however few of them had come in.
  pub main-SendsWhole : (fuel : ℕ) (argv : List Text) → SendsWhole (trace (main fuel argv k []))
  unfolding main SendsWhole
  main-SendsWhole fuel argv =
      if-Keeps SendsWhole k (leb (length argv) 2) _ _ (λ t p. p)
        (bind-Keeps SendsWhole k (arg argv 1) _ (arg-Keeps SendsWhole k argv 1) (λ ip.
          bind-Keeps SendsWhole k (arg argv 2) _ (arg-Keeps SendsWhole k argv 2) (λ port.
            bind-Keeps SendsWhole k (set_up ip port) _ (set_up-SendsWhole ip port)
              (λ fds. serve-SendsWhole fuel fds.0 fds.1))))
        [] tt
