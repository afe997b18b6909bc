-- ===== src/Inet/Sockets/Examples.antt =====
-- A host with two addresses, of which the first cannot be reached.
use linux_unix_system_progra.Prelude.{
  ℕ, ◌+◌, ◌≡◌, refl, some, [], ◌∷◌, List, Text, codes, zero, suc,
}
use linux_unix_system_progra.Sys.{
  Kernel, Trace, ok, fail, ebadf, connect, listen, getaddrinfo, AddrInfo, af_inet6, sock_stream,
  inet6,
}
use linux_unix_system_progra.Sys.Sample.{sample, trace}
use linux_unix_system_progra.Sys.View.{lists_held, lists_freed}
use linux_unix_system_progra.Inet.Sockets.{inet_connect}
use linux_unix_system_progra.Inet.Sockets.Balance.{held_sockets, with_result, inet_connect-held}

abbrev entry : ℕ → AddrInfo
entry n = record {
  ai_family = af_inet6;
  ai_socktype = sock_stream;
  ai_protocol = 0;
  ai_addr = inet6 (codes "::1") n;
  ai_addrlen = 28;
}

abbrev addresses : List AddrInfo
addresses = entry 1 ∷ entry 2 ∷ []

-- No socket can be listened on.
abbrev kernel : Kernel
kernel t (getaddrinfo _ _ _ _ _) = ok addresses
kernel t (connect fd (inet6 _ (suc zero))) = fail ebadf
kernel t (listen _ _) = fail ebadf
kernel t c = sample t c

abbrev host : Text
host = codes "h"

abbrev service : Text
service = codes "s"

abbrev u : Trace
u = trace (inet_connect host service sock_stream kernel [])

inet_connect-held_example :
    (held_sockets u ≡ with_result (some 5) (held_sockets []))
    × (lists_freed u + lists_held [] ≡ lists_freed [] + lists_held u)
unfolding inet_connect
inet_connect-held_example = inet_connect-held host service sock_stream kernel [] u (some 5) refl
