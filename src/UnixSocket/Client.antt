-- ===== src/UnixSocket/Client.antt =====
-- TLPI/chapter57/us_xfr_cl.c: standard input goes to the socket /tmp/us_xfr.
mod Examples
pub mod Failure
use linux_unix_system_progra.Prelude.{
  ℕ, ◌-◌, ◌^◌, Bool, List, [], ◌∷◌, Text, codes, if◌then◌else◌, ◌==◌, length,
}
use linux_unix_system_progra.Sys.{
  Reply, ok, fail, af_unix, sock_stream, unix_path, socket, connect, read, write, M, ◌>>=◌, ◌>>◌,
  pure, call, exit, die, or_die, Round, next, leave, loop,
}

abbrev pub sv_sock_path : Text
sv_sock_path = codes "/tmp/us_xfr"

abbrev pub buf_size : ℕ
buf_size = 100

-- -1 as a `size_t`.
abbrev pub size_max : ℕ
size_max = 2 ^ 64 - 1

-- The result of a call as a `size_t`, the type of `numRead` and of the comparison with it.
abbrev pub as_size : Reply ℕ → ℕ
as_size (ok n) = n
as_size (fail e) = size_max

-- The body of the loop for what `read` returned, with the content of the buffer. `numRead` is
-- unsigned, so that a failed read is greater than 0 and goes on to the write.
pub on_read : ℕ → Text → Reply Text → M (Round Text (Unit {0}))
on_read sfd buf (ok []) = pure (leave tt)
on_read sfd buf (ok (b ∷ bs)) = do
  written ← call (write sfd (b ∷ bs) (length (b ∷ bs)))
  if as_size written == length (b ∷ bs) then pure (next (b ∷ bs)) else die "write\n" 1
on_read sfd buf (fail e) = do
  written ← call (write sfd buf size_max)
  if as_size written == size_max then pure (next buf) else die "write\n" 1

pub send_round : ℕ → Text → M (Round Text (Unit {0}))
unfolding on_read
send_round sfd buf = do num_read ← call (read 0 buf_size); on_read sfd buf num_read

-- The loop ends with `numRead` at 0, so that the test for -1 behind it never passes.
pub main : ℕ → Text → M (Unit {0})
main fuel garbage = do
  sfd ← or_die "socket\n" 1 (← call (socket af_unix sock_stream 0))
  or_die "connect\n" 1 (← call (connect sfd (unix_path sv_sock_path)))
  loop fuel (send_round sfd) garbage
  exit 0
