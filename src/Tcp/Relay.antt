-- ===== src/Tcp/Relay.antt =====
-- Where the greeting of 1_CGI.cpp goes.
use linux_unix_system_progra.Prelude.{ℕ, ◌≡◌, Option, none, some, [], ◌∷◌, arith}
use linux_unix_system_progra.Sys.{Trace, Kernel, done, printf}
use linux_unix_system_progra.Sys.View.{origin}
use linux_unix_system_progra.Tcp.Cgi.{answer}

-- The descriptor behind standard output, at the latest line that was printed.
unfoldable pub printed_to : Trace → Option ℕ
unfolding origin
printed_to [] = none
printed_to ((printf _ _, _) ∷ t) = some (origin 1 t)
printed_to (_ ∷ t) = printed_to t

-- When 1_CGI.cpp returns from the answer to a connection, the greeting was printed while standard output
-- was a copy of the connection; otherwise it ends with status 1.
pub answer-printed_to :
    (sock_fd cli_fd : ℕ) (k : Kernel) (t u : Trace) (r : ℕ)
    → origin cli_fd t ≡ cli_fd
    → answer sock_fd cli_fd k t ≡ done r u
    → (r ≡ 0) × (printed_to u ≡ some cli_fd)
unfolding answer printed_to origin
answer-printed_to sock_fd cli_fd k t u r own h = ground (arith, own)
