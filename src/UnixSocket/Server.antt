-- ===== src/UnixSocket/Server.antt =====
-- TLPI/chapter57/us_xfr_sv.c: each connection to /tmp/us_xfr goes to standard output.
mod Examples
pub mod Shown
use linux_unix_system_progra.Prelude.{
  ℕ, Bool, true, false, [], ◌∷◌, Text, if◌then◌else◌, ◌==◌, length,
}
use linux_unix_system_progra.Sys.{
  Errno, enoent, ok, fail, af_unix, sock_stream, unix_path, socket, bind, listen, accept, read,
  write, close, remove_file, M, ◌>>=◌, ◌>>◌, pure, call, exit, die, or_die, Round, next, leave,
  loop,
}
use linux_unix_system_progra.UnixSocket.Client.{sv_sock_path, buf_size, size_max, as_size}

abbrev pub backlog : ℕ
backlog = 5

abbrev is_enoent : Errno → Bool
is_enoent enoent = true
is_enoent _ = false

-- As in the client, a failed read goes on to the write.
pub receive_round : ℕ → Text → M (Round Text Text)
receive_round afd buf = do
  num_read ← call (read afd buf_size)
  elim num_read [
    | ok [] ↦ pure (leave buf)
    | ok (b ∷ bs) ↦ do
      written ← call (write 1 (b ∷ bs) (length (b ∷ bs)))
      if as_size written == length (b ∷ bs) then pure (next (b ∷ bs)) else die "write\n" 1
    | fail e ↦ do
      written ← call (write 1 buf size_max)
      if as_size written == size_max then pure (next buf) else die "write\n" 1
  ]

pub serve_round : ℕ → ℕ → Text → M (Round Text (Unit {0}))
unfolding receive_round
serve_round fuel sfd buf = do
  afd ← or_die "accept\n" 1 (← call (accept sfd))
  buf ← loop fuel (receive_round afd) buf
  or_die "close\n" 1 (← call (close afd))
  pure (next buf)

pub main : ℕ → Text → M (Unit {0})
main fuel garbage = do
  removed ← call (remove_file sv_sock_path)
  elim removed [ ok _ ↦ pure tt | fail e ↦ if is_enoent e then pure tt else die "remove\n" 1 ]
  sfd ← or_die "socket\n" 1 (← call (socket af_unix sock_stream 0))
  or_die "bind\n" 1 (← call (bind sfd (unix_path sv_sock_path)))
  or_die "listen\n" 1 (← call (listen sfd backlog))
  loop fuel (serve_round fuel sfd) garbage
  exit 0
