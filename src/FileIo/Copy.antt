-- ===== src/FileIo/Copy.antt =====
-- TLPI/chapter4/copy.c: copies the file argv[1] to argv[2] through a buffer of 1024 bytes.
mod Examples
pub mod Transfer
pub mod Total
use linux_unix_system_progra.Prelude.{
  ℕ, pos, is_minus_one, truth, true, false, ◌||◌, not, List, [], ◌∷◌, Text, codes, text_eq, ◌==◌,
  if◌then◌else◌, length,
}
use linux_unix_system_progra.Sys.{
  Reply, ok, fail, o_rdonly, o_wronly, o_creat, o_trunc, num, str, printf, open_file, close, read,
  write, M, ◌>>=◌, ◌>>◌, pure, call, exit, say, die, or_die, failed, returned, arg, Round, next,
  leave, loop,
}

abbrev pub buf_size : ℕ
buf_size = 1024

-- rw-rw-rw-
abbrev file_perms : ℕ
file_perms = 0o666

-- Line 28: wrong arguments. `exit(-1)` gives status 255.
usage : List Text → M (Unit {0})
usage argv = do
  program ← arg argv 0
  call (printf "usageErr:%s old-file new-file\n" (str program ∷ []))
  exit 255

check_args : List Text → M (Unit {0})
unfolding text_eq usage
check_args argv =
    if not (length argv == 3)
    then usage argv
    else do first ← arg argv 1; if text_eq first (codes "--help") then usage argv else pure tt

-- One round of the loop of line 68: it leaves with what `read` returned last, none at end of file.
pub copy_round : ℕ → ℕ → Unit {0} → M (Round (Unit {0}) (Reply (Unit {0})))
copy_round input output _ = do
  num_read ← call (read input buf_size)
  elim num_read [
    | fail e ↦ pure (leave (fail e))
    | ok [] ↦ pure (leave (ok tt))
    | ok (b ∷ bs) ↦ do
      written ← call (write output (b ∷ bs) (length (b ∷ bs)))
      if returned written (length (b ∷ bs))
          then pure (next tt)
          else die "could't write whole buffer" 255
  ]

pub copy_loop : ℕ → ℕ → ℕ → M (Reply (Unit {0}))
unfolding copy_round
copy_loop fuel input output = loop fuel (copy_round input output) tt

pub open_files : List Text → M (ℕ × ℕ)
open_files argv = do
  old_file ← arg argv 1
  new_file ← arg argv 2
  opened ← call (open_file old_file (o_rdonly ∷ []) 0)
  input ← elim opened [
    | ok fd ↦ pure fd
    | fail e ↦ do call (printf "opening file %s" (str old_file ∷ [])); exit 255
  ]
  created ← call (open_file new_file (o_creat ∷ o_wronly ∷ o_trunc ∷ []) file_perms)
  output ← elim created [
    | ok fd ↦ pure fd
    | fail e ↦ do call (printf "opening file %s" (str old_file ∷ [])); exit 255
  ]
  pure (input, output)

-- Lines 77 to 96. The second close is `close(outputFd == -1)`, which closes the number of a
-- comparison that is false.
pub finish : ℕ → ℕ → Reply (Unit {0}) → M ℕ
finish input output last = do
  or_die "read" 255 last
  or_die "close input" 255 (← call (close input))
  or_die "close output" 255 (← call (close (truth (is_minus_one (pos output)))))
  say "\nend\n"
  pure 0

pub main : ℕ → List Text → M ℕ
unfolding check_args open_files copy_loop finish
main fuel argv = do
  say "\nstart\n"
  check_args argv
  (input, output) ← open_files argv
  last ← copy_loop fuel input output
  finish input output last
