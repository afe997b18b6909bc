-- ===== src/Inet/Sockets.antt =====
-- TLPI/chapter59/inet_sockets.c: connecting and binding to the first address that works.
mod Examples
pub mod Balance
pub mod Writes
use linux_unix_system_progra.Prelude.{
  ℕ, Bool, true, false, Option, none, some, List, [], ◌∷◌, Text, if◌then◌else◌,
}
use linux_unix_system_progra.Sys.{
  Reply, ok, fail, SockType, sock_stream, af_unspec, AddrInfo, socket, connect, bind, listen, close,
  set_reuseaddr, getaddrinfo, freeaddrinfo, End, M, ◌>>=◌, ◌>>◌, pure, halt, call, say,
}

-- The descriptor with the entry of the list that it belongs to; `none` after the whole list.
pub try_connect : List AddrInfo → M (Option (ℕ × AddrInfo))
try_connect [] = pure none
try_connect (rp ∷ rest) =
    let go_on = try_connect rest in
    do
      made ← call (socket rp.ai_family rp.ai_socktype rp.ai_protocol)
      elim made [
        | fail e ↦ do say "socket in for loop\n"; go_on
        | ok cfd ↦ do
          joined ← call (connect cfd rp.ai_addr)
          elim joined [
            | fail e ↦ do say "Connect failed, try another address.\n"; call (close cfd); go_on
            | ok _ ↦ pure (some (cfd, rp))
          ]
      ]

-- What follows the loop of inetConnect.
pub after_loop : Option (ℕ × AddrInfo) → M (Option ℕ)
after_loop r = do
  call freeaddrinfo
  elim r [
    | none ↦ do
      say
          "Cannot connect any address till the end of the resluts returned by getaddrinfo function\n"
      pure none
    | some c ↦ pure (some c.0)
  ]

-- The -1 of the program is `none`. When getaddrinfo fails, the loop starts from a pointer that was
-- never set, which is undefined.
unfoldable pub inet_connect : Text → Text → SockType → M (Option ℕ)
unfolding try_connect after_loop
inet_connect host service type = do
  found ← call (getaddrinfo (some host) service af_unspec type false)
  elim found [
    | fail e ↦ do say "getaddrinfo\n"; halt End.undefined
    | ok result ↦ do r ← try_connect result; after_loop r
  ]

-- What the loop of inetPassiveSocket ends with: a bound socket, the end of the list, or an early
-- return because SO_REUSEADDR failed.
pub data Bound : Type 0 where
  bound : ℕ → AddrInfo → Bound
  exhausted gave_up : Bound

pub try_bind : Bool → List AddrInfo → M Bound
try_bind do_listen [] = pure exhausted
try_bind do_listen (rp ∷ rest) =
    let go_on = try_bind do_listen rest in
    do
      made ← call (socket rp.ai_family rp.ai_socktype rp.ai_protocol)
      elim made [
        | fail e ↦ do say "socket in for loop\n"; go_on
        | ok sfd ↦ do
          reusable ← if do_listen then call (set_reuseaddr sfd) else pure (ok tt)
          elim reusable [
            | fail e ↦ do call (close sfd); call freeaddrinfo; pure gave_up
            | ok _ ↦ do
              named ← call (bind sfd rp.ai_addr)
              elim named [ ok _ ↦ pure (bound sfd rp) | fail e ↦ do call (close sfd); go_on ]
          ]
      ]

-- The descriptor and the address length, which the program stores through `addrlen`.
pub inet_passive_socket : Text → SockType → Bool → ℕ → M (Option (ℕ × ℕ))
unfolding try_bind
inet_passive_socket service type do_listen backlog = do
  found ← call (getaddrinfo none service af_unspec type true)
  elim found [
    | fail e ↦ do say "getaddrinfo\n"; pure none
    | ok result ↦ do
      r ← try_bind do_listen result
      elim r [
        | gave_up ↦ pure none
        | exhausted ↦ do call freeaddrinfo; pure none
        | bound sfd rp ↦ do
          listening ← if do_listen then call (listen sfd backlog) else pure (ok tt)
          elim listening [
            | fail e ↦ do call freeaddrinfo; pure none
            | ok _ ↦ do call freeaddrinfo; pure (some (sfd, rp.ai_addrlen))
          ]
      ]
  ]

pub inet_listen : Text → ℕ → M (Option (ℕ × ℕ))
unfolding inet_passive_socket
inet_listen service backlog = inet_passive_socket service sock_stream true backlog

pub inet_bind : Text → SockType → M (Option (ℕ × ℕ))
unfolding inet_passive_socket
inet_bind service type = inet_passive_socket service type false 0
