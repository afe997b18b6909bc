-- ===== src/Pipe/LsWc.antt =====
-- TLPI/chapter44/pipe_ls_wc.c: `ls | wc -l` by two children and a pipe.
mod Examples
pub mod Wiring
use linux_unix_system_progra.Prelude.{
  ℕ, zero, suc, pos, Bool, true, false, List, [], ◌∷◌, Text, codes, if◌then◌else◌, ◌==◌,
}
use linux_unix_system_progra.Sys.{
  Reply, ok, fail, pipe, fork, close, dup2, execlp, wait_child, End, M, ◌>>=◌, ◌>>◌, pure, halt,
  call, exit, say, die, or_die,
}

-- execlp returns only if it fails.
pub exec : List Text → Text → M (Unit {0})
exec args file = do
  started ← call (execlp file args)
  elim started [ ok _ ↦ halt End.replaced | fail e ↦ pure tt ]

-- The first child, with the two ends of the pipe.
pub ls_child : ℕ → ℕ → M (Unit {0})
ls_child read_end write_end = do
  or_die "close\n" 1 (← call (close read_end))
  if write_end == 1 then pure tt else (do
    or_die "dup2\n" 1 (← call (dup2 write_end (pos 1)))
    or_die "close\n" 1 (← call (close write_end)))
  exec (codes "ls" ∷ []) (codes "ls")
  die "execlp ls\n" 1

pub wc_child : ℕ → ℕ → M (Unit {0})
wc_child read_end write_end = do
  or_die "close\n" 1 (← call (close write_end))
  if read_end == 0 then pure tt else (do
    or_die "dup2\n" 1 (← call (dup2 read_end (pos 0)))
    or_die "close\n" 1 (← call (close read_end)))
  exec (codes "wc" ∷ codes "-l" ∷ []) (codes "wc")
  die "execlp wc\n" 1

pub parent_end : ℕ → ℕ → M (Unit {0})
parent_end read_end write_end = do
  or_die "close\n" 1 (← call (close read_end))
  or_die "close\n" 1 (← call (close write_end))
  or_die "close\n" 1 (← call wait_child)
  or_die "close\n" 1 (← call wait_child)
  say "Success.\n"
  exit 0

pub main : M (Unit {0})
main = do
  (read_end, write_end) ← or_die "pipe\n" 1 (← call pipe)
  first ← call fork
  elim first [
    | fail e ↦ die "fork\n" 1
    | ok zero ↦ ls_child read_end write_end
    | ok (suc pid) ↦ do
      second ← call fork
      elim second [
        | fail e ↦ die "fork\n" 1
        | ok zero ↦ wc_child read_end write_end
        | ok (suc pid) ↦ parent_end read_end write_end
      ]
  ]
