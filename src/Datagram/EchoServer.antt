-- ===== src/Datagram/EchoServer.antt =====
-- TLPI/chapter60/id_echo_sv.c: a daemon that is to send each datagram back.
mod Examples
pub mod Silence
use linux_unix_system_progra.Prelude.{
  ℕ, negsuc, Bool, true, false, none, some, List, [], ◌∷◌, Text, codes, if◌then◌else◌, int_eq,
  truth,
}
use linux_unix_system_progra.Sys.{
  Reply, ok, fail, sock_dgram, syslog, recvfrom, sendto, M, ◌>>=◌, ◌>>◌, pure, call, exit, die,
  returned, failed, Round, next, leave, loop,
}
use linux_unix_system_progra.Daemon.{become_daemon}
use linux_unix_system_progra.Inet.Sockets.{inet_bind}

-- SERVICE and BUF_SIZE of id_echo.h.
abbrev pub service : Text
service = codes "echo"

abbrev pub buf_size : ℕ
buf_size = 500

-- `numRead` is the value of the comparison of the call's result with -1.
pub serve_round : ℕ → Unit {0} → M (Round (Unit {0}) (Unit {0}))
serve_round fd _ = do
  got ← call (recvfrom fd buf_size)
  elim got [
    | fail e ↦ do call (syslog "recvfrom failed"); pure (next tt)
    | ok d ↦ do
      let num_read = truth (failed (ok d))
      sent ← call (sendto fd d.0 num_read d.1)
      if returned sent num_read
          then pure (next tt)
          else do call (syslog "Error echoing response to %s (%s)"); pure (next tt)
  ]

pub serve : ℕ → M (Unit {0})
unfolding serve_round
serve fuel = do
  socket ← inet_bind service sock_dgram
  elim socket [
    | none ↦ do call (syslog "Could not create server socket (%s)"); exit 1
    | some s ↦ loop fuel (serve_round s.0) tt
  ]

pub main : ℕ → M (Unit {0})
unfolding serve
main fuel = do
  status ← become_daemon 0
  if int_eq status (negsuc 0) then die "becomeDaemon\n" 1 else serve fuel
