-- ===== src/Datagram/CaseClient.antt =====
-- TLPI/chapter59/i6d_ucase_cl.c: sends its arguments and shows the answers.
mod Examples
pub mod Messages
use linux_unix_system_progra.Prelude.{
  ℕ, ◌+◌, Bool, true, false, none, some, List, [], ◌∷◌, Text, codes, text_eq, if◌then◌else◌, ltb,
  length, drop,
}
use linux_unix_system_progra.Sys.{
  Reply, ok, fail, Addr, inet6, inet6_any, af_inet6, sock_dgram, num, str, printf, socket, recvfrom,
  sendto, inet_pton, M, ◌>>=◌, ◌>>◌, pure, call, exit, die, or_die, returned, arg,
}
use linux_unix_system_progra.Datagram.CaseServer.{buf_size, port_num}

-- The loop over the messages, with `i - 1`.
pub talk : ℕ → Addr → ℕ → List Text → M (Unit {0})
talk cfd caddr i [] = pure tt
talk cfd caddr i (message ∷ rest) =
    let go_on = talk cfd caddr (i + 1) rest in
    do
      sent ← call (sendto cfd message (length message) caddr)
      if returned sent (length message) then pure tt else die "sendto\n" 1
      got ← call (recvfrom cfd buf_size)
      d ← or_die "recvfrom\n" 1 got
      call (printf "Response %d: %.*s\n" (num i ∷ num (length d.0) ∷ str d.0 ∷ []))
      go_on

-- Lines 17 to 21. The address was cleared, and stays so unless the text is an address.
pub server_address : Text → M Addr
server_address host = do
  parsed ← call (inet_pton host)
  elim parsed [
    | ok (some address) ↦ pure (inet6 address port_num)
    | ok none ↦ pure (inet6_any port_num)
    | fail e ↦ do
      call (printf "inet_pton failed for address '%s'" (str host ∷ []))
      pure (inet6_any port_num)
  ]

-- After a wrong usage the program goes on.
pub main : List Text → M (Unit {0})
unfolding text_eq
main argv = do
  wrong ←
      if ltb (length argv) 3
      then pure true
      else (do first ← arg argv 1; pure (text_eq first (codes "--help")))
  if wrong
      then (do
        program ← arg argv 0
        call (printf "usageErr: %s host-address msg...\n" (str program ∷ [])))
      else pure tt
  cfd ← or_die "socket\n" 1 (← call (socket af_inet6 sock_dgram 0))
  host ← arg argv 1
  caddr ← server_address host
  talk cfd caddr 1 (drop 2 argv)
  exit 0
