-- ===== src/Inet/Sockets/Balance.antt =====
-- Which sockets and address lists stay behind.
use linux_unix_system_progra.Prelude.{
  ℕ, ◌⊎◌, ◌+◌, ◌≡◌, refl, suc, Bool, true, false, Option, none, some, List, [], ◌∷◌, Text, arith,
  ◌==◌, ==-refl, if◌then◌else◌,
}
use linux_unix_system_progra.Sys.{
  SockType, AddrInfo, Reply, ok, fail, getaddrinfo, af_unspec, and_then_done, Trace, Kernel, done,
  socket, connect, printf, close,
}
use linux_unix_system_progra.Sys.View.{Connected, created, released, lists_held, lists_freed}
use linux_unix_system_progra.Inet.Sockets.{
  try_connect, after_loop, inet_connect, Bound, bound, gave_up, try_bind, inet_bind, inet_listen,
}

-- How many sockets a result stands for.
abbrev pub owned {ℓ} : {A : Type ℓ} → Option A → ℕ
owned none = 0
owned (some _) = 1

-- The list without the first mention of `fd`.
pub without : ℕ → List ℕ → List ℕ
without fd [] = []
without fd (x ∷ xs) = let rest = without fd xs in if x == fd then xs else x ∷ rest

-- The sockets that were made and not given to close since, the latest first.
unfoldable pub held_sockets : Trace → List ℕ
unfolding without
held_sockets [] = []
held_sockets ((socket _ _ _, ok fd) ∷ t) = fd ∷ held_sockets t
held_sockets ((close fd, _) ∷ t) = without fd (held_sockets t)
held_sockets (_ ∷ t) = held_sockets t

abbrev kept : Option (ℕ × AddrInfo) → List ℕ → List ℕ
kept none l = l
kept (some (fd, _)) l = fd ∷ l

abbrev pub with_result : Option ℕ → List ℕ → List ℕ
with_result none l = l
with_result (some fd) l = fd ∷ l

-- What a walk along the list keeps.
abbrev Held : Option (ℕ × AddrInfo) → Trace → Trace → Type 0
Held r t u =
    (held_sockets u ≡ kept r (held_sockets t))
    × (lists_held u ≡ lists_held t)
    × (lists_freed u ≡ lists_freed t)

module _ (rp : AddrInfo) (rest : List AddrInfo) (k : Kernel)
    (ih : (t u : Trace) (r : Option (ℕ × AddrInfo)) → try_connect rest k t ≡ done r u → Held r t u)
    (t u : Trace) (r : Option (ℕ × AddrInfo)) (h : try_connect (rp ∷ rest) k t ≡ done r u) where
  abbrev asked : Reply ℕ → Trace
  asked x = (socket rp.ai_family rp.ai_socktype rp.ai_protocol, x) ∷ t

  abbrev tried : ℕ → Reply (Unit {0}) → Trace
  tried cfd y = (connect cfd rp.ai_addr, y) ∷ asked (ok cfd)

  on_connect :
      (cfd : ℕ) (y : Reply (Unit {0}))
      → k t (socket rp.ai_family rp.ai_socktype rp.ai_protocol) ≡ ok cfd
      → k (asked (ok cfd)) (connect cfd rp.ai_addr) ≡ y
      → Held r t u
  unfolding try_connect held_sockets without lists_held lists_freed
  on_connect cfd (ok x) eq eq' = ground (arith, eq, eq', h)
  on_connect cfd (fail e) eq eq' =
      let said : Trace =
        (printf "Connect failed, try another address.\n" [], tt) ∷ tried cfd (fail e) in
      ground
        (arith, ==-refl cfd, ih ((close cfd, k said (close cfd)) ∷ said) u r (simp (eq, eq') at h))

  on_socket :
      (x : Reply ℕ) → k t (socket rp.ai_family rp.ai_socktype rp.ai_protocol) ≡ x → Held r t u
  unfolding try_connect held_sockets lists_held lists_freed
  on_socket (ok cfd) eq = on_connect cfd (k (asked (ok cfd)) (connect cfd rp.ai_addr)) eq refl
  on_socket (fail e) eq =
      ih ((printf "socket in for loop\n" [], tt) ∷ asked (fail e)) u r (simp eq at h)

try_connect-held :
    (l : List AddrInfo) (k : Kernel) (t u : Trace) (r : Option (ℕ × AddrInfo))
    → try_connect l k t ≡ done r u
    → Held r t u
unfolding try_connect
try_connect-held [] k t u r h = ground arith
try_connect-held (rp ∷ rest) k t u r h =
    on_socket rp rest k (try_connect-held rest k) t u r h
      (k t (socket rp.ai_family rp.ai_socktype rp.ai_protocol)) refl

after_loop-held :
    (c : Option (ℕ × AddrInfo)) (k : Kernel) (t u : Trace) (r : Option ℕ) (l : List ℕ)
    → held_sockets t ≡ kept c l
    → after_loop c k t ≡ done r u
    → (held_sockets u ≡ with_result r l)
      × (lists_held u ≡ lists_held t)
      × (lists_freed u ≡ suc (lists_freed t))
unfolding after_loop held_sockets lists_held lists_freed
after_loop-held none k t u r l e h = ground (arith, e, h)
after_loop-held (some (fd, rp)) k t u r l e h = ground (arith, e, h)

on_found :
    (host service : Text) (type : SockType) (k : Kernel) (t u : Trace) (r : Option ℕ)
    (found : Reply (List AddrInfo))
    → k t (getaddrinfo (some host) service af_unspec type false) ≡ found
    → inet_connect host service type k t ≡ done r u
    → (held_sockets u ≡ with_result r (held_sockets t))
      × (lists_freed u + lists_held t ≡ lists_freed t + lists_held u)
unfolding inet_connect held_sockets lists_held lists_freed
on_found host service type k t u r (fail e) eq h = ground (arith, eq, h)
on_found host service type k t u r (ok l) eq h =
    let t' : Trace = (getaddrinfo (some host) service af_unspec type false, ok l) ∷ t in
    let (c, v, g, f) = and_then_done (try_connect l k t') (λ r. after_loop r) k (simp eq at h) in
    let (a, b, d) = try_connect-held l k t' v c g in
    let (a', b', d') = after_loop-held c k v u r (held_sockets t) a f in
    (a', omega (arith, b, d, b', d'))

-- inetConnect keeps exactly the socket that it returns: when it returns, the sockets that were made and
-- not given to close are those from before and, in front of them, the one that it returns, or none when
-- it returns -1; and every address list that it got was freed.
pub inet_connect-held :
    (host service : Text) (type : SockType) (k : Kernel) (t u : Trace) (r : Option ℕ)
    → inet_connect host service type k t ≡ done r u
    → (held_sockets u ≡ with_result r (held_sockets t))
      × (lists_freed u + lists_held t ≡ lists_freed t + lists_held u)
inet_connect-held host service type k t u r h =
    on_found host service type k t u r (k t (getaddrinfo (some host) service af_unspec type false))
      refl h

-- The entry is one of the list.
abbrev pub Among : AddrInfo → List AddrInfo → Type 0
Among a [] = ⊥
Among a (b ∷ l) = (a ≡ b) ⊎ Among a l

try_connect-Among :
    (l : List AddrInfo) (k : Kernel) (t u : Trace) (fd : ℕ) (rp : AddrInfo)
    → try_connect l k t ≡ done (some (fd, rp)) u
    → Among rp l
unfolding try_connect
try_connect-Among [] k t u fd rp h = ground arith
try_connect-Among (a ∷ rest) k t u fd rp h = grind (arith, try_connect-Among rest k)

try_connect-Connected :
    (l : List AddrInfo) (k : Kernel) (t u : Trace) (fd : ℕ) (rp : AddrInfo)
    → try_connect l k t ≡ done (some (fd, rp)) u
    → Connected fd rp.ai_addr u
unfolding try_connect Connected
try_connect-Connected [] k t u fd rp h = ground arith
try_connect-Connected (a ∷ rest) k t u fd rp h = grind (arith, try_connect-Connected rest k)

after_loop-Connected :
    (l : List AddrInfo) (k : Kernel) (t v u : Trace) (fd : ℕ) (r : Option (ℕ × AddrInfo))
    → try_connect l k t ≡ done r v
    → after_loop r k v ≡ done (some fd) u
    → (rp : AddrInfo) × Among rp l × Connected fd rp.ai_addr u
unfolding after_loop Connected
after_loop-Connected l k t v u fd none e h = ground arith
after_loop-Connected l k t v u fd (some (c, rp)) e h =
    (rp, try_connect-Among l k t v c rp e, ground (arith, try_connect-Connected l k t v c rp e))

-- The descriptor that inetConnect returns was connected to the address of an entry of the list that
-- getaddrinfo gave for the host and the service.
pub inet_connect-Connected :
    (host service : Text) (type : SockType) (l : List AddrInfo) (k : Kernel) (t u : Trace) (fd : ℕ)
    → k t (getaddrinfo (some host) service af_unspec type false) ≡ ok l
    → inet_connect host service type k t ≡ done (some fd) u
    → (rp : AddrInfo) × Among rp l × Connected fd rp.ai_addr u
unfolding inet_connect
inet_connect-Connected host service type l k t u fd found h =
    let t' : Trace = (getaddrinfo (some host) service af_unspec type false, ok l) ∷ t in
    let (r, v, e, f) = and_then_done (try_connect l k t') (λ r. after_loop r) k (simp found at h) in
    after_loop-Connected l k t' v u fd r e f

abbrev pending : Bound → ℕ
pending (bound _ _) = 1
pending _ = 0

abbrev freed_early : Bound → ℕ
freed_early gave_up = 1
freed_early _ = 0

try_bind-balance :
    (l : List AddrInfo) (do_listen : Bool) (k : Kernel) (t u : Trace) (r : Bound)
    → try_bind do_listen l k t ≡ done r u
    → (created u + released t ≡ created t + released u + pending r)
      × (lists_held u ≡ lists_held t)
      × (lists_freed u ≡ lists_freed t + freed_early r)
unfolding try_bind created released lists_held lists_freed
try_bind-balance [] d k t u r h = ground arith
try_bind-balance (rp ∷ rest) false k t u r h = grind (arith, try_bind-balance rest false k)
try_bind-balance (rp ∷ rest) true k t u r h = grind (arith, try_bind-balance rest true k)

-- inetBind keeps exactly the socket that it returns, and frees every address list.
pub inet_bind-balance :
    (service : Text) (type : SockType) (k : Kernel) (t u : Trace) (r : Option (ℕ × ℕ))
    → inet_bind service type k t ≡ done r u
    → (created u + released t ≡ created t + released u + owned r)
      × (lists_freed u + lists_held t ≡ lists_freed t + lists_held u)
unfolding inet_bind created released lists_held lists_freed
inet_bind-balance service type k t u r h = grind (arith, try_bind-balance)

-- inetListen frees every address list. Either it keeps exactly the socket that it returns (none with
-- -1), or it returns -1 and leaves one socket open, as it does when listen fails.
pub inet_listen-balance :
    (service : Text) (backlog : ℕ) (k : Kernel) (t u : Trace) (r : Option (ℕ × ℕ))
    → inet_listen service backlog k t ≡ done r u
    → (lists_freed u + lists_held t ≡ lists_freed t + lists_held u)
      × ((created u + released t ≡ created t + released u + owned r)
          ⊎ ((r ≡ none) × (created u + released t ≡ created t + released u + 1)))
unfolding inet_listen created released lists_held lists_freed
inet_listen-balance service backlog k t u r h = grind (arith, try_bind-balance)
