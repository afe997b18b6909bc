-- ===== src/Datagram/EchoClient.antt =====
-- TLPI/chapter60/id_echo_cl.c: sends its arguments to the echo service.
pub mod Descriptor
use linux_unix_system_progra.Prelude.{
  ℕ, ℤ, Option, Bool, true, false, none, some, List, [], ◌∷◌, Text, codes, text_eq, if◌then◌else◌,
  ltb, length, drop, truth, ◌==◌, is_minus_one, negsuc, pos,
}
use linux_unix_system_progra.Sys.{
  Reply, ok, fail, sock_dgram, str, printf, read, write, End, M, ◌>>=◌, ◌>>◌, pure, halt, call,
  exit, die, returned, failed, arg,
}
use linux_unix_system_progra.Inet.Sockets.{inet_connect}
use linux_unix_system_progra.Datagram.EchoServer.{service, buf_size}

-- The loop over the messages. The count that it prints was never set, which is undefined.
pub talk : ℕ → List Text → M (Unit {0})
talk fd [] = pure tt
talk fd (message ∷ rest) = do
  written ← call (write fd message (length message))
  if returned written (length message) then pure tt else die "Partial write\n" 1
  got ← call (read fd buf_size)
  if failed got then die "read\n" 1 else halt End.undefined

-- The result of inetConnect as an `int`.
descriptor : Option ℕ → ℤ
descriptor none = negsuc 0
descriptor (some c) = pos c

-- Lines 17 to 40. `fd` is the value of the comparison of the descriptor with -1.
pub after_connect : Option ℕ → List Text → M (Unit {0})
unfolding talk descriptor
after_connect connected messages = do
  let fd = truth (is_minus_one (descriptor connected))
  if fd == 0 then pure tt else die "inetConnect\n" 1
  talk fd messages
  exit 0

pub main : List Text → M (Unit {0})
unfolding text_eq after_connect
main argv = do
  wrong ←
      if ltb (length argv) 2
      then pure true
      else (do first ← arg argv 1; pure (text_eq first (codes "--help")))
  if wrong
      then (do
        program ← arg argv 0
        call (printf "usageErr: %s: host msg...\n" (str program ∷ []))
        exit 1)
      else pure tt
  host ← arg argv 1
  connected ← inet_connect host service sock_dgram
  after_connect connected (drop 2 argv)
