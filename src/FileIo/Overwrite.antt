-- ===== src/FileIo/Overwrite.antt =====
-- TLPI/chapter5/exercise/file_append_5.2.c: writes the front of a text over the front of a file.
pub mod Front
use linux_unix_system_progra.Prelude.{
  ℕ, ◌++◌, pos, true, Option, get_elem?, List, [], ◌∷◌, Text, codes, text_eq, ltb, length, take,
  if◌then◌else◌,
}
use linux_unix_system_progra.Sys.{
  o_rdwr, seek_set, str, printf, open_file, lseek, write, close, M, ◌>>=◌, ◌>>◌, pure, call, exit,
  or_die, arg, entry_of,
}

-- sizeof(argc[2]) is the size of a pointer.
abbrev pub pointer_size : ℕ
pointer_size = 8

-- After the usage message, main goes on.
pub check : List Text → M (Unit {0})
check argv = do
  help ←
      (if ltb (length argv) 2
        then pure true
        else (do first ← arg argv 1; pure (text_eq first (codes "--help"))))
  if help
      then (do
        first ← arg argv 1
        call (printf "useage: .//%s filename data2append\n" (str first ∷ []))
        pure tt)
      else pure tt

-- `behind` is what lies in memory behind the terminator of the text.
pub put : ℕ → Text → Option Text → M (Unit {0})
put fd behind data2append = do
  or_die "lseek erro.\n" 1 (← call (lseek fd (pos 0) seek_set))
  text ← entry_of data2append
  or_die "write erro.\n" 1
      (← call (write fd (take pointer_size (text ++ (0 ∷ behind))) pointer_size))
  or_die "close erro.\n" 1 (← call (close fd))
  exit 0

pub main : Text → List Text → M (Unit {0})
unfolding check put
main behind argv = do
  check argv
  path ← arg argv 1
  fd ← or_die "open erro.\n" 1 (← call (open_file path (o_rdwr ∷ []) 0))
  put fd behind (get_elem? argv 2)
