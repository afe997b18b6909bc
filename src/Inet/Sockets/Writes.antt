-- ===== src/Inet/Sockets/Writes.antt =====
-- Connecting writes nothing.
use linux_unix_system_progra.Prelude.{ℕ, ◌≡◌, ◌≢◌, Option, List, [], ◌∷◌, Text, arith}
use linux_unix_system_progra.Sys.{AddrInfo, SockType, Trace, Kernel, End, exited, done, halted}
use linux_unix_system_progra.Sys.View.{WritesOnly}
use linux_unix_system_progra.Inet.Sockets.{try_connect, after_loop, inet_connect}

module _ (k : Kernel) where
  try_connect-WritesOnly :
      (l : List AddrInfo) (fd : ℕ) (t u : Trace) (r : Option (ℕ × AddrInfo))
      → WritesOnly fd t
      → try_connect l k t ≡ done r u
      → WritesOnly fd u
  unfolding try_connect
  try_connect-WritesOnly [] fd t u r w h = ground arith
  try_connect-WritesOnly (a ∷ rest) fd t u r w h = grind (arith, try_connect-WritesOnly rest fd)

  try_connect-halted :
      (l : List AddrInfo) (t u : Trace) (e : End) → try_connect l k t ≡ halted e u → ⊥
  unfolding try_connect
  try_connect-halted [] t u e h = ground arith
  try_connect-halted (a ∷ rest) t u e h = grind (arith, try_connect-halted rest)

  pub connect-WritesOnly :
      (host service : Text) (type : SockType) (fd : ℕ) (t u : Trace) (r : Option ℕ)
      → WritesOnly fd t
      → inet_connect host service type k t ≡ done r u
      → WritesOnly fd u
  unfolding inet_connect after_loop
  connect-WritesOnly host service type fd t u r w h = grind (arith, try_connect-WritesOnly)

  pub connect-halted :
      (host service : Text) (type : SockType) (fd : ℕ) (t u : Trace) (e : End)
      → WritesOnly fd t
      → inet_connect host service type k t ≡ halted e u
      → (e ≢ exited 0) × WritesOnly fd u
  unfolding inet_connect after_loop
  connect-halted host service type fd t u e w h = grind (arith, try_connect-halted)
