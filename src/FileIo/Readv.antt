-- ===== src/FileIo/Readv.antt =====
-- TLPI/chapter5/t_readv.c: reads a struct stat, a number and a text with one call.
use linux_unix_system_progra.Prelude.{
  ℕ, ◌+◌, ◌==◌, not, true, List, [], ◌∷◌, Text, codes, text_eq, ltb, length, if◌then◌else◌,
}
use linux_unix_system_progra.Sys.{
  Reply, ok, fail, o_rdonly, open_file, readv, M, ◌>>=◌, ◌>>◌, pure, call, say, exit, die, or_die,
  arg,
}

-- sizeof(struct stat) on x86-64, of an `int`, and STR_SIZE.
abbrev pub sizes : List ℕ
sizes = 144 ∷ 4 ∷ 100 ∷ []

abbrev pub tot_required : ℕ
tot_required = 144 + 4 + 100

-- The name of the program is compared with --help.
pub check_args : List Text → M (Unit {0})
check_args argv = do
  help ←
      (if not (length argv == 2)
        then pure true
        else (do name ← arg argv 0; pure (text_eq name (codes "--help"))))
  if help then die "usageErr! \n" 1 else pure tt

abbrev opened : Reply ℕ → M ℕ
opened (ok fd) = pure fd
opened (fail e) = exit 1

pub main : List Text → M (Unit {0})
unfolding check_args
main argv = do
  check_args argv
  path ← arg argv 1
  fd ← opened (← call (open_file path (o_rdonly ∷ []) 0))
  num_read ← or_die "readv error.\n" 1 (← call (readv fd sizes))
  if ltb num_read tot_required then say "Read fewer than required!\n" else pure tt
  say " success\n"
  exit 0
