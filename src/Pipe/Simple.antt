-- ===== src/Pipe/Simple.antt =====
-- TLPI/chapter44/simple_pipe.c: the parent writes its argument into a pipe, the child copies the pipe
-- to standard output.
mod Examples
pub mod Ends
use linux_unix_system_progra.Prelude.{
  ℕ, zero, suc, Bool, true, false, List, [], ◌∷◌, Text, codes, if◌then◌else◌, ltb, length,
}
use linux_unix_system_progra.Sys.{
  Reply, ok, fail, pipe, fork, close, read, write, wait_child, M, ◌>>=◌, ◌>>◌, pure, call, exit,
  say, die, or_die, arg, Round, next, leave, loop,
}

abbrev pub buf_size : ℕ
buf_size = 10

-- The result of the write is not looked at.
pub child_round : ℕ → Unit {0} → M (Round (Unit {0}) (Unit {0}))
child_round read_end _ = do
  num_read ← call (read read_end buf_size)
  elim num_read [
    | fail e ↦ die "read\n" 1
    | ok [] ↦ pure (leave tt)
    | ok (b ∷ bs) ↦ do call (write 1 (b ∷ bs) (length (b ∷ bs))); pure (next tt)
  ]

-- Lines 44 to 52.
pub child_end : ℕ → M (Unit {0})
child_end read_end = do
  or_die "close\n" 1 (← call (close read_end))
  call (write 1 (codes "\n") 1)
  exit 0

pub child : ℕ → ℕ → ℕ → M (Unit {0})
child fuel read_end write_end = do
  or_die "close\n" 1 (← call (close write_end))
  loop fuel (child_round read_end) tt
  child_end read_end

pub parent : List Text → ℕ → ℕ → M (Unit {0})
parent argv read_end write_end = do
  or_die "close\n" 1 (← call (close read_end))
  message ← arg argv 1
  written ← or_die "write\n" 1 (← call (write write_end message (length message)))
  if ltb written (length message) then say "Part write.\n" else pure tt
  or_die "close\n" 1 (← call (close write_end))
  call wait_child
  exit 0

pub main : ℕ → List Text → M (Unit {0})
main fuel argv = do
  (read_end, write_end) ← or_die "pipe\n" 1 (← call pipe)
  forked ← call fork
  elim forked [
    | fail e ↦ die "fork\n" 1
    | ok zero ↦ child fuel read_end write_end
    | ok (suc pid) ↦ parent argv read_end write_end
  ]
