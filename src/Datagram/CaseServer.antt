-- ===== src/Datagram/CaseServer.antt =====
-- TLPI/chapter59/i6d_ucase_sv.c: answers each datagram in capitals.
mod Examples
pub mod Answers
use linux_unix_system_progra.Prelude.{
  ℕ, Bool, true, false, List, [], ◌∷◌, Text, if◌then◌else◌, map, length, toupper,
}
use linux_unix_system_progra.Sys.{
  Reply, ok, fail, Addr, inet6, inet6_any, af_inet6, sock_dgram, num, str, printf, socket, bind,
  recvfrom, sendto, inet_ntop, M, ◌>>=◌, ◌>>◌, pure, call, exit, say, die, or_die, returned, Round,
  next, leave, loop,
}

abbrev pub buf_size : ℕ
buf_size = 10

abbrev pub port_num : ℕ
port_num = 50002

-- caddr.sin6_port, of an address of this family.
abbrev port_of : Addr → ℕ
port_of (inet6 host port) = port
port_of (inet6_any port) = port
port_of _ = 0

pub upper : Text → Text
upper bs = map toupper bs

pub announce : Text → Addr → M (Unit {0})
announce bs caddr = do
  text ← call (inet_ntop caddr)
  elim text [
    | fail e ↦ say "Couldn't convert client address to string\n"
    | ok caddr_str ↦ call (
        printf "Server received %ld bytes from (%s, %u)\n"
          (num (length bs) ∷ str caddr_str ∷ num (port_of caddr) ∷ []))
  ]

pub serve_round : ℕ → Unit {0} → M (Round (Unit {0}) (Unit {0}))
unfolding announce upper
serve_round sfd _ = do
  got ← call (recvfrom sfd buf_size)
  elim got [
    | fail e ↦ die "recvfrom\n" 1
    | ok d ↦ do
      announce d.0 d.1
      sent ← call (sendto sfd (upper d.0) (length d.0) d.1)
      if returned sent (length d.0) then pure (next tt) else die "sendto\n" 1
  ]

pub main : ℕ → M (Unit {0})
main fuel = do
  sfd ← or_die "socket\n" 1 (← call (socket af_inet6 sock_dgram 0))
  or_die "bind\n" 1 (← call (bind sfd (inet6_any port_num)))
  loop fuel (serve_round sfd) tt
