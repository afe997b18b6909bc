-- ===== src/FileIo/Append.antt =====
-- TLPI/chapter5/exercise/atomic_append.c: writes a million bytes at the end of a file, with or without
-- O_APPEND.
mod Examples
use linux_unix_system_progra.Prelude.{
  ℕ, ◌==◌, pos, Bool, true, false, List, [], ◌∷◌, Text, codes, text_eq, ltb, length, replicate,
  if◌then◌else◌,
}
use linux_unix_system_progra.Sys.{
  OpenFlag, o_rdwr, o_append, seek_end, str, printf, open_file, lseek, write, close, M, ◌>>=◌, ◌>>◌,
  pure, call, exit, or_die, arg,
}

abbrev pub num2write : ℕ
num2write = 1000000

-- After the usage message, main goes on.
unfoldable pub check : List Text → M (Unit {0})
check argv = do
  help ←
      (if ltb (length argv) 2
        then pure true
        else (do first ← arg argv 1; pure (text_eq first (codes "--help"))))
  if help
      then (do
        first ← arg argv 1
        call (printf "useage: .//%s filename numByte [x] \n" (str first ∷ []))
        pure tt)
      else pure tt

-- O_APPEND, where there is one argument only.
abbrev pub flags_of : List Text → List OpenFlag
flags_of argv = if length argv == 2 then o_rdwr ∷ o_append ∷ [] else o_rdwr ∷ []

-- Seek to the end, write this many bytes with the value 1, and close the file.
unfoldable pub append : ℕ → ℕ → M (Unit {0})
append n fd = do
  or_die "lseek erro.\n" 1 (← call (lseek fd (pos 0) seek_end))
  or_die "write erro.\n" 1 (← call (write fd (replicate n 1) n))
  or_die "close erro.\n" 1 (← call (close fd))
  exit 0

-- The open call has no permissions.
unfoldable pub main : List Text → M (Unit {0})
unfolding check append
main argv = do
  check argv
  path ← arg argv 1
  fd ← or_die "open erro.\n" 1 (← call (open_file path (flags_of argv) 0))
  append num2write fd
