-- ===== src/Sys/View.antt =====
-- What a trace says.
use linux_unix_system_progra.Prelude.{
  ℕ, String, List, zero, suc, ◌+◌, ℤ, pos, negsuc, ◌&&◌, Option, none, some, Bool, true, false, [],
  ◌∷◌, ◌++◌, Text, ◌==◌, if◌then◌else◌, take, ◌≡◌, ◌⊎◌, length, ==-refl, take-length,
}
use linux_unix_system_progra.Sys.Calls.{
  open_file, Reply, ok, fail, eintr, Arg, eprintf, msgsnd, msgrcv, dup2, fork, setsid, socket,
  getaddrinfo, freeaddrinfo, connect, Addr, read, write, close, semop, recvfrom, sendto,
  set_shm_buf, set_shm_cnt,
}
use linux_unix_system_progra.Sys.Run.{Trace}

-- The bytes that reads on `fd` returned.
unfoldable pub received : ℕ → Trace → Text
received fd [] = []
received fd ((read f n, ok bs) ∷ t) = if f == fd then received fd t ++ bs else received fd t
received fd (_ ∷ t) = received fd t

-- The bytes that writes on `fd` accepted.
unfoldable pub sent : ℕ → Trace → Text
sent fd [] = []
sent fd ((write f bs n, ok m) ∷ t) = if f == fd then sent fd t ++ take m bs else sent fd t
sent fd (_ ∷ t) = sent fd t

-- What the latest read on `fd` returned.
unfoldable pub last_read : ℕ → Trace → Option (Reply Text)
last_read fd [] = none
last_read fd ((read f n, r) ∷ t) = if f == fd then some r else last_read fd t
last_read fd (_ ∷ t) = last_read fd t

-- Whether `fd` was closed.
unfoldable pub closed : ℕ → Trace → Bool
closed fd [] = false
closed fd ((close f, ok _) ∷ t) = if f == fd then true else closed fd t
closed fd (_ ∷ t) = closed fd t

-- Whether `fd` was closed and not opened again.
unfoldable pub shut : ℕ → Trace → Bool
shut fd [] = false
shut fd ((close f, ok _) ∷ t) = if f == fd then true else shut fd t
shut fd ((open_file _ _ _, ok f) ∷ t) = if f == fd then false else shut fd t
shut fd ((dup2 _ _, ok f) ∷ t) = if f == fd then false else shut fd t
shut fd (_ ∷ t) = shut fd t

-- How often a semaphore was taken and given back, and how often taking it was interrupted.
unfoldable pub taken : ℕ → ℕ → Trace → ℕ
taken id n [] = 0
taken id n ((semop i m (negsuc _) _, ok _) ∷ t) =
    if i == id && m == n then suc (taken id n t) else taken id n t
taken id n (_ ∷ t) = taken id n t

unfoldable pub given : ℕ → ℕ → Trace → ℕ
given id n [] = 0
given id n ((semop i m (pos _) _, ok _) ∷ t) =
    if i == id && m == n then suc (given id n t) else given id n t
given id n (_ ∷ t) = given id n t

unfoldable pub interrupted : ℕ → ℕ → Trace → ℕ
interrupted id n [] = 0
interrupted id n ((semop i m (negsuc _) _, fail eintr) ∷ t) =
    if i == id && m == n then suc (interrupted id n t) else interrupted id n t
interrupted id n (_ ∷ t) = interrupted id n t

-- The bytes that were put into a shared segment, block by block, and the count stored last.
unfoldable pub stored : ℕ → Trace → Text
stored id [] = []
stored id ((set_shm_buf i bs, _) ∷ t) = if i == id then stored id t ++ bs else stored id t
stored id (_ ∷ t) = stored id t

-- The same as a list of blocks.
unfoldable pub stored_blocks : ℕ → Trace → List Text
stored_blocks id [] = []
stored_blocks id ((set_shm_buf i bs, _) ∷ t) =
    if i == id then stored_blocks id t ++ bs ∷ [] else stored_blocks id t
stored_blocks id (_ ∷ t) = stored_blocks id t

unfoldable pub stored_cnt : ℕ → Trace → ℤ
stored_cnt id [] = pos 0
stored_cnt id ((set_shm_cnt i n, _) ∷ t) = if i == id then n else stored_cnt id t
stored_cnt id (_ ∷ t) = stored_cnt id t

-- The latest message on standard error.
unfoldable pub last_report : Trace → Option (String × List Arg)
last_report [] = none
last_report ((eprintf s args, _) ∷ t) = some (s, args)
last_report (_ ∷ t) = last_report t

-- Sockets made, descriptors given to `close`, and address lists obtained and freed.
unfoldable pub created : Trace → ℕ
created [] = 0
created ((socket _ _ _, ok _) ∷ t) = suc (created t)
created (_ ∷ t) = created t

unfoldable pub released : Trace → ℕ
released [] = 0
released ((close _, _) ∷ t) = suc (released t)
released (_ ∷ t) = released t

unfoldable pub lists_held : Trace → ℕ
lists_held [] = 0
lists_held ((getaddrinfo _ _ _ _ _, ok _) ∷ t) = suc (lists_held t)
lists_held (_ ∷ t) = lists_held t

unfoldable pub lists_freed : Trace → ℕ
lists_freed [] = 0
lists_freed ((freeaddrinfo, _) ∷ t) = suc (lists_freed t)
lists_freed (_ ∷ t) = lists_freed t

-- `fd` was connected to `a`.
unfoldable pub Connected : ℕ → Addr → Trace → Type 0
Connected fd a [] = ⊥
Connected fd a ((connect f b, ok _) ∷ t) = ((f ≡ fd) × (b ≡ a)) ⊎ Connected fd a t
Connected fd a (_ ∷ t) = Connected fd a t

-- How often fork returned in the child, and how often a new session was begun.
unfoldable pub child_forks : Trace → ℕ
child_forks [] = 0
child_forks ((fork, ok zero) ∷ t) = suc (child_forks t)
child_forks (_ ∷ t) = child_forks t

unfoldable pub sessions : Trace → ℕ
sessions [] = 0
sessions ((setsid, ok _) ∷ t) = suc (sessions t)
sessions (_ ∷ t) = sessions t

-- The descriptor that `fd` was copied from by dup2, or `fd` itself.
unfoldable pub origin : ℕ → Trace → ℕ
origin fd [] = fd
origin fd ((dup2 old (pos f), ok _) ∷ t) = if f == fd then origin old t else origin fd t
origin fd (_ ∷ t) = origin fd t

-- The messages that a queue took from this process, and those that it gave, the latest last: the type
-- and the bytes.
unfoldable pub delivered : ℕ → Trace → List (ℕ × Text)
delivered id [] = []
delivered id ((msgsnd i type bs n _, ok _) ∷ t) =
    if i == id then delivered id t ++ (type, take n bs) ∷ [] else delivered id t
delivered id (_ ∷ t) = delivered id t

unfoldable pub accepted : ℕ → Trace → List (ℕ × Text)
accepted id [] = []
accepted id ((msgrcv i _ _ _, ok m) ∷ t) =
    if i == id then accepted id t ++ m ∷ [] else accepted id t
accepted id (_ ∷ t) = accepted id t

-- The bytes of the messages of one type, in order, and the size of all.
unfoldable pub bodies : ℕ → List (ℕ × Text) → Text
bodies type [] = []
bodies type ((ty, bs) ∷ l) = if ty == type then bs ++ bodies type l else bodies type l

unfoldable pub sizes : List (ℕ × Text) → ℕ
sizes [] = 0
sizes ((_, bs) ∷ l) = length bs + sizes l

-- The datagrams that came in on a socket, and those that it took, with the address of the other side.
unfoldable pub datagrams : ℕ → Trace → List (Text × Addr)
datagrams fd [] = []
datagrams fd ((recvfrom f _, ok d) ∷ t) =
    if f == fd then datagrams fd t ++ d ∷ [] else datagrams fd t
datagrams fd (_ ∷ t) = datagrams fd t

unfoldable pub replies : ℕ → Trace → List (Text × Addr)
replies fd [] = []
replies fd ((sendto f bs n a, ok m) ∷ t) =
    if f == fd then replies fd t ++ (take m bs, a) ∷ [] else replies fd t
replies fd (_ ∷ t) = replies fd t

-- Every write was to this descriptor.
abbrev pub WritesOnly : ℕ → Trace → Type 0
WritesOnly fd [] = Unit
WritesOnly fd ((write f _ _, _) ∷ t) = (f ≡ fd) × WritesOnly fd t
WritesOnly fd (_ ∷ t) = WritesOnly fd t

module _ (fd : ℕ) (bs : Text) (t : Trace) where
  pub received-read : (n : ℕ) → received fd ((read fd n, ok bs) ∷ t) ≡ received fd t ++ bs
  unfolding received
  received-read n = rw ==-refl

  pub sent-write : sent fd ((write fd bs (length bs), ok (length bs)) ∷ t) ≡ sent fd t ++ bs
  unfolding sent
  sent-write = rw (==-refl, take-length)
