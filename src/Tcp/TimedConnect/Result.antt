-- ===== src/Tcp/TimedConnect/Result.antt =====
-- What timeout_connect returns, and what it leaves open.
use linux_unix_system_progra.Prelude.{ℕ, ◌≡◌, ◌≢◌, ℤ, Option, none, some, [], ◌∷◌, Text, arith}
use linux_unix_system_progra.Sys.{Trace, Kernel, ok, fail, done, socket, connect4, close}
use linux_unix_system_progra.Tcp.TimedConnect.{after_connect, timeout_connect}

-- The socket that was made last and not closed since, and the one that was connected last.
unfoldable pub open_socket : Trace → Option ℕ
open_socket [] = none
open_socket ((socket _ _ _, ok fd) ∷ t) = some fd
open_socket ((close _, _) ∷ t) = none
open_socket (_ ∷ t) = open_socket t

unfoldable pub connected : Trace → Option ℕ
connected [] = none
connected ((connect4 fd _, ok _) ∷ t) = some fd
connected ((connect4 fd _, fail _) ∷ t) = none
connected (_ ∷ t) = connected t

-- Whenever timeout_connect returns, it returns the socket that its connect has just connected, or -1 when
-- that failed; in both cases the socket that it made is still open.
pub timeout_connect-connected :
    (ip port : Text) (time : ℤ) (k : Kernel) (t u : Trace) (r : Option ℕ)
    → timeout_connect ip port time k t ≡ done r u
    → (r ≡ connected u) × (open_socket u ≢ none)
unfolding timeout_connect after_connect connected open_socket
timeout_connect-connected ip port time k t u r h = ground (arith, h)
