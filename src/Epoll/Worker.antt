-- ===== src/Epoll/Worker.antt =====
-- When a worker of 9_4_EPOLLONESHOT.cpp ends.
use linux_unix_system_progra.Prelude.{
  ℕ, zero, suc, ◌+◌, ◌≡◌, refl, ◌∙◌, ap, ℤ, pos, negsuc, true, Option, none, some, List, [], ◌∷◌,
  Text, replicate, if◌then◌else◌, int_eq, arith, ==-refl,
}
use linux_unix_system_progra.Sys.{
  Trace, Kernel, out_of_fuel, Reply, ok, fail, eagain, done, halted, fd_recv, fd_close, epoll_mod,
  EpollFlag, epollin, epollet, epolloneshot, printf, int, Round, next, loop, after, Held, loop_done,
  bind_done, and_then, call,
}
use linux_unix_system_progra.Epoll.OneShot.{buffer_size, reset_oneshot, worker_round, worker}

-- Everything that epoll_ctl was asked to arm again, the latest first: the epoll instance, the descriptor
-- and the events.
pub rearms : Trace → List (ℕ × ℤ × List EpollFlag)
rearms [] = []
rearms ((epoll_mod epollfd fd events, _) ∷ t) = (epollfd, fd, events) ∷ rearms t
rearms (_ ∷ t) = rearms t

-- How often the descriptor was closed, and what the last `recv` on it returned.

pub closings : ℤ → Trace → ℕ
closings fd [] = 0
closings fd ((fd_close f, _) ∷ t) = if int_eq f fd then closings fd t + 1 else closings fd t
closings fd (_ ∷ t) = closings fd t

pub last_recv : ℤ → Trace → Option (Reply Text)
last_recv fd [] = none
last_recv fd ((fd_recv f _, r) ∷ t) = if int_eq f fd then some r else last_recv fd t
last_recv fd (_ ∷ t) = last_recv fd t

int_eq_refl : (z : ℤ) → int_eq z z ≡ true
int_eq_refl (pos n) = ==-refl n
int_eq_refl (negsuc n) = ==-refl n

module _ (k : Kernel) (epollfd : ℕ) (fd : ℤ) where
  abbrev armed : ℕ × ℤ × List EpollFlag
  armed = (epollfd, fd, epollin ∷ epollet ∷ epolloneshot ∷ [])

  abbrev Armed : List (ℕ × ℤ × List EpollFlag) → Trace → Type 0
  Armed l u = (rearms u ≡ armed ∷ l) × (last_recv fd u ≡ some (fail eagain))

  round-Armed :
      (l : List (ℕ × ℤ × List EpollFlag)) (buf : Text) (t u : Trace) (r : Round Text (Unit {0}))
      → rearms t ≡ l
      → worker_round epollfd fd buf k t ≡ done r u
      → Held (λ _ v. rearms v ≡ l) (λ _. Armed l) r u
  unfolding worker_round reset_oneshot rearms last_recv
  round-Armed l buf t u r c h = ground (arith, int_eq_refl fd)

  -- Whenever a worker ends, its last recv found no more input for now, and it has asked epoll_ctl exactly
  -- once to arm something again: its own descriptor, on its epoll instance, for EPOLLIN, EPOLLET and
  -- EPOLLONESHOT.
  pub worker-Armed :
      (fuel : ℕ) (t u : Trace) (x : Unit {0})
      → worker fuel epollfd fd k t ≡ done x u
      → (rearms u ≡ (epollfd, fd, epollin ∷ epollet ∷ epolloneshot ∷ []) ∷ rearms t)
        × (last_recv fd u ≡ some (fail eagain))
  unfolding worker rearms last_recv
  worker-Armed fuel t u x h =
      let (y, v, g, f) =
        bind_done (loop fuel (worker_round epollfd fd) (replicate buffer_size 0))
          (λ _. call (printf "end thread receiving data on fd:%d\n" (int fd ∷ []))) k t h in
      let all =
        loop_done (worker_round epollfd fd) k (λ _ v. rearms v ≡ rearms t) (λ _. Armed (rearms t))
          (round-Armed (rearms t)) fuel (replicate buffer_size 0) t v y refl g in
      ground (arith, all, f)

  module _ (ended : (t : Trace) → k t (fd_recv fd 1023) ≡ ok []) where
    round-closes :
        (buf : Text) (t : Trace)
        → (u : Trace) × (worker_round epollfd fd buf k t ≡ done (next buf) u)
          × (closings fd u ≡ closings fd t + 1)
    unfolding worker_round closings
    round-closes buf t =
        let e = ended t in
        let one : Trace =
          (printf "foreiner closed the connection\n" [], tt) ∷ (fd_recv fd 1023, ok []) ∷ t in
        ((fd_close fd, k one (fd_close fd)) ∷ one, rw e, ground (arith, int_eq_refl fd))

    loop-closes :
        (fuel : ℕ) (buf : Text) (t : Trace)
        → (u : Trace) × (loop fuel (worker_round epollfd fd) buf k t ≡ halted out_of_fuel u)
          × (closings fd u ≡ closings fd t + fuel)
    unfolding loop after
    loop-closes zero buf t = (t, refl, omega arith)
    loop-closes (suc n) buf t =
        let (v, g, c) = round-closes buf t in
        let (u, h, d) = loop-closes n buf v in
        (u, ap (after (loop n (worker_round epollfd fd)) k) g ∙ h, omega (arith, c, d))

    -- When the peer has closed the connection, so that each recv returns 0, the worker never ends:
    -- however many rounds it is given, it closes the same descriptor in each.
    pub worker-spins :
        (fuel : ℕ) (t : Trace)
        → (u : Trace) × (worker fuel epollfd fd k t ≡ halted out_of_fuel u)
          × (closings fd u ≡ closings fd t + fuel)
    unfolding worker
    worker-spins fuel t =
        let (u, h, d) = loop-closes fuel (replicate buffer_size 0) t in
        (
          u,
          ap
              (λ r.
                and_then r (λ _. call (printf "end thread receiving data on fd:%d\n" (int fd ∷ [])))
                  k)
              h,
          d,
        )
