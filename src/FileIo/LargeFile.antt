-- ===== src/FileIo/LargeFile.antt =====
-- TLPI/chapter5/exercise/large_file_2.c: writes four bytes far behind the start of a file.
pub mod Content
mod Examples
use linux_unix_system_progra.Prelude.{
  ℕ, ◌*◌, ◌==◌, Bool, true, false, not, List, [], ◌∷◌, Text, codes, text_eq, length, if◌then◌else◌,
  atoi,
}
use linux_unix_system_progra.Sys.{
  o_rdwr, o_creat, seek_set, str, printf, open_file, lseek, write, M, ◌>>=◌, ◌>>◌, pure, call, exit,
  or_die, arg,
}

abbrev pub file_perms : ℕ
file_perms = 6 * 64

pub check_args : List Text → M (Unit {0})
check_args argv = do
  help ←
      (if not (length argv == 3)
        then pure true
        else (do first ← arg argv 1; pure (text_eq first (codes "--help"))))
  if help
      then (do name ← arg argv 0; call (printf "%s pathname offset\n" (str name ∷ [])); exit 1)
      else pure tt

-- The descriptor is not closed.
pub write_at : Text → Text → M (Unit {0})
write_at path offset = do
  fd ← or_die "Erro: open.\n" 1 (← call (open_file path (o_rdwr ∷ o_creat ∷ []) file_perms))
  or_die "Erro: lseek.\n" 1 (← call (lseek fd (atoi offset) seek_set))
  or_die "Erro: write.\n" 1 (← call (write fd (codes "test") 4))
  exit 0

pub main : List Text → M (Unit {0})
unfolding check_args write_at
main argv = do check_args argv; path ← arg argv 1; offset ← arg argv 2; write_at path offset
