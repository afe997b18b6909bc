-- ===== src/Epoll/Served.antt =====
-- What 9_3_epoll_LT_ET.cpp does with the descriptors that are ready.
use linux_unix_system_progra.Prelude.{
  ℕ, ◌+◌, ◌≡◌, refl, ◌++◌, ◌∙◌, ap, sym, leb, length, inl, inr, ℤ, List, [], ◌∷◌, Text,
  if◌then◌else◌, int_eq, append_assoc, append-nil, arith,
}
use linux_unix_system_progra.Sys.{
  Trace, Kernel, End, Reply, ok, fail, Ready, run_cases, and_then, done, halted, set_flags, fd_recv,
  Keeps, bind-Keeps, loop-Keeps, arg, arg-Keeps, if-Keeps, trace, pure, next, epoll_create,
  epoll_wait, asserted, fd_close, loop, ◌>>=◌, call,
}
use linux_unix_system_progra.Epoll.Trigger.{
  set_nonblocking, add_fd, lt_input, lt_event, lt, max_event_number, after_create, on_events,
  wait_round, set_up, serve, main,
}

-- The descriptors that were asked for input, those that were at their end, and those that were closed,
-- in order.
pub asked : Trace → List ℤ
asked [] = []
asked ((fd_recv fd _, _) ∷ t) = asked t ++ fd ∷ []
asked (_ ∷ t) = asked t

unfoldable pub ended : Trace → List ℤ
ended [] = []
ended ((fd_recv fd _, ok []) ∷ t) = ended t ++ fd ∷ []
ended (_ ∷ t) = ended t

unfoldable pub shut_down : Trace → List ℤ
shut_down [] = []
shut_down ((fd_close fd, _) ∷ t) = shut_down t ++ fd ∷ []
shut_down (_ ∷ t) = shut_down t

-- The connections with input among the events.
pub inputs : ℤ → List Ready → List ℤ
inputs lfd [] = []
inputs lfd (ev ∷ evs) =
    let rest = inputs lfd evs in
    if int_eq ev.fd lfd then rest else if ev.has_input then ev.fd ∷ rest else rest

module _ (k : Kernel) (epollfd : ℕ) (lfd : ℤ) where
  abbrev Served : Ready → Trace → Trace → Type 0
  Served ev t u = (asked u ≡ asked t ++ inputs lfd (ev ∷ [])) × (shut_down u ≡ ended u)

  event-Served :
      (ev : Ready) (t u : Trace) (x : Unit {0})
      → shut_down t ≡ ended t
      → lt_event epollfd lfd ev k t ≡ done x u
      → Served ev t u
  unfolding lt_event lt_input add_fd set_nonblocking asked ended shut_down inputs
  event-Served ev t u x same h = ground (arith, append-nil (asked t))

  event-goes_on :
      (ev : Ready) (t u : Trace) (e : End) → lt_event epollfd lfd ev k t ≡ halted e u → ⊥
  unfolding lt_event lt_input add_fd set_nonblocking
  event-goes_on ev t u e h = ground arith

  inputs-append :
      (ev : Ready) (evs : List Ready)
      → inputs lfd (ev ∷ evs) ≡ inputs lfd (ev ∷ []) ++ inputs lfd evs
  unfolding inputs
  inputs-append ev evs = ground arith

  -- If so far exactly the descriptors at their end were closed, then lt goes through all events, asks
  -- each ready connection with input once for it, in order, and again exactly the descriptors at their
  -- end were closed.
  pub lt-Served :
      (evs : List Ready) (t : Trace)
      → shut_down t ≡ ended t
      → (u : Trace) × (lt evs epollfd lfd k t ≡ done tt u)
        × (asked u ≡ asked t ++ inputs lfd evs)
        × (shut_down u ≡ ended u)
  unfolding lt inputs
  lt-Served [] t same = (t, refl, sym (append-nil (asked t)), same)
  lt-Served (ev ∷ evs) t same = elim (run_cases (lt_event epollfd lfd ev k t)) [
    | inr (e, u, h) ↦ absurd (event-goes_on ev t u e h)
    | inl (x, v, h) ↦
        let (a, s) = event-Served ev t v x same h in
        let (u, g, b, r) = lt-Served evs v s in
        (
          u,
          ap (λ y. and_then y (λ _. lt evs epollfd lfd) k) h ∙ g,
          b
              ∙ ap (λ y. y ++ inputs lfd evs) a
              ∙ append_assoc (asked t) (inputs lfd (ev ∷ [])) (inputs lfd evs)
              ∙ ap (λ y. asked t ++ y) (sym (inputs-append ev evs)),
          r,
        )
  ]

-- How often flags were set.
pub flags_set : Trace → ℕ
flags_set [] = 0
flags_set ((set_flags _ _, _) ∷ t) = flags_set t + 1
flags_set (_ ∷ t) = flags_set t

abbrev Blocking : Trace → Type 0
Blocking t = flags_set t ≡ 0

module _ (k : Kernel) where
  event-Blocking : (epollfd : ℕ) (lfd : ℤ) (ev : Ready) → Keeps Blocking k (lt_event epollfd lfd ev)
  unfolding lt_event lt_input add_fd set_nonblocking flags_set
  event-Blocking epollfd lfd ev t p = ground arith

  lt-Blocking : (evs : List Ready) (epollfd : ℕ) (lfd : ℤ) → Keeps Blocking k (lt evs epollfd lfd)
  unfolding lt
  lt-Blocking [] epollfd lfd t p = p
  lt-Blocking (ev ∷ evs) epollfd lfd t p =
      bind-Keeps Blocking k (lt_event epollfd lfd ev) (λ _. lt evs epollfd lfd)
        (event-Blocking epollfd lfd ev) (λ _. lt-Blocking evs epollfd lfd) t p

  answer-Blocking :
      (epollfd : ℕ) (lfd : ℤ) (r : Reply (List Ready)) → Keeps Blocking k (on_events epollfd lfd r)
  unfolding on_events flags_set
  answer-Blocking epollfd lfd (fail e) t p = p
  answer-Blocking epollfd lfd (ok evs) t p =
      bind-Keeps Blocking k (lt evs epollfd lfd) (λ _. pure (next tt)) (lt-Blocking evs epollfd lfd)
        (λ _ t p. p) t p

  round-Blocking :
      (epollfd : ℕ) (lfd : ℤ) (s : Unit {0}) → Keeps Blocking k (wait_round epollfd lfd s)
  unfolding wait_round flags_set
  round-Blocking epollfd lfd s =
      bind-Keeps Blocking k (call (epoll_wait epollfd max_event_number)) (on_events epollfd lfd)
        (λ t p. p) (answer-Blocking epollfd lfd)

  serve-Blocking :
      (fuel : ℕ) (lfd : ℤ) (epollfd : ℕ) → Keeps Blocking k (after_create fuel lfd epollfd)
  unfolding after_create add_fd set_nonblocking flags_set
  serve-Blocking fuel lfd epollfd t p =
      bind-Keeps Blocking k (loop fuel (wait_round epollfd lfd) tt)
        (λ _. call (fd_close lfd) >>= λ _. pure 0)
        (loop-Keeps Blocking k (wait_round epollfd lfd) (round-Blocking epollfd lfd) fuel tt)
        (λ _ t p. p) _ p

  create-Blocking : Keeps Blocking k (call (epoll_create 5) >>= asserted)
  unfolding flags_set
  create-Blocking t p = ground arith

  set_up-Blocking : (ip port : Text) → Keeps Blocking k (set_up ip port)
  unfolding set_up flags_set
  set_up-Blocking ip port t p = ground arith

  served-Blocking : (fuel : ℕ) (lfd : ℤ) → Keeps Blocking k (serve fuel lfd)
  unfolding serve
  served-Blocking fuel lfd =
      bind-Keeps Blocking k (call (epoll_create 5) >>= asserted) (after_create fuel lfd)
        create-Blocking (serve-Blocking fuel lfd)

  -- No run of the server sets the flags of a descriptor, so that no descriptor becomes nonblocking,
  -- although each is given to set_nonblocking.
  pub main-Blocking : (fuel : ℕ) (argv : List Text) → flags_set (trace (main fuel argv k [])) ≡ 0
  unfolding main flags_set
  main-Blocking fuel argv =
      if-Keeps Blocking k (leb (length argv) 2) _ _ (λ t p. p)
        (bind-Keeps Blocking k (arg argv 1) _ (arg-Keeps Blocking k argv 1) (λ ip.
          bind-Keeps Blocking k (arg argv 2) _ (arg-Keeps Blocking k argv 2) (λ port.
            bind-Keeps Blocking k (set_up ip port) (serve fuel) (set_up-Blocking ip port)
              (served-Blocking fuel))))
        [] refl
