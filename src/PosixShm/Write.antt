-- ===== src/PosixShm/Write.antt =====
-- TLPI/chapter54/pshm_write.c: copies a text into a shared memory object.
use linux_unix_system_progra.Prelude.{
  ℕ, ◌==◌, not, pos, List, [], ◌∷◌, Text, codes, length, if◌then◌else◌, text_eq, true,
}
use linux_unix_system_progra.Sys.{
  o_rdwr, num, str, printf, shm_open, ftruncate, mmap, close, store_map, M, ◌>>=◌, ◌>>◌, pure, call,
  exit, or_die, arg,
}

-- Without the right arguments, there is a message, and main goes on.
unfoldable pub check : ℕ → List Text → M (Unit {0})
check argc argv = do
  help ←
      (if not (length argv == argc)
        then pure true
        else (do first ← arg argv 1; pure (text_eq first (codes "--help"))))
  if help
      then (do
        name ← arg argv 0
        call (printf "usageErr: %s shm-name string\n" (str name ∷ []))
        pure tt)
      else pure tt

unfoldable pub fill : ℕ → Text → M (Unit {0})
fill fd text = do
  let size = length text
  or_die "ftruncate\n" 1 (← call (ftruncate fd (pos size)))
  call (printf "Resized to %ld bytes\n" (num size ∷ []))
  addr ← or_die "mmap\n" 1 (← call (mmap (pos fd) size))
  or_die "close\n" 1 (← call (close fd))
  call (printf "copying %ld bytes\n" (num size ∷ []))
  call (store_map addr text)
  exit 0

unfoldable pub main : List Text → M (Unit {0})
unfolding check fill
main argv = do
  check 3 argv
  name ← arg argv 1
  fd ← or_die "shm_open\n" 1 (← call (shm_open name (o_rdwr ∷ []) (pos 0)))
  text ← arg argv 2
  fill fd text
