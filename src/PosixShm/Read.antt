-- ===== src/PosixShm/Read.antt =====
-- TLPI/chapter54/pshm_read.c: copies a shared memory object to standard output.
use linux_unix_system_progra.Prelude.{
  ℕ, ◌==◌, not, pos, List, [], ◌∷◌, Text, codes, length, if◌then◌else◌, text_eq, true,
}
use linux_unix_system_progra.Sys.{
  o_rdwr, Reply, ok, fail, str, printf, shm_open, fstat_size, mmap, close, load_map, write, M,
  ◌>>=◌, ◌>>◌, pure, call, exit, say, or_die, arg,
}

unfoldable pub check : ℕ → List Text → M (Unit {0})
check argc argv = do
  help ←
      (if not (length argv == argc)
        then pure true
        else (do first ← arg argv 1; pure (text_eq first (codes "--help"))))
  if help
      then (do name ← arg argv 0; call (printf "usageErr %s shm-name\n" (str name ∷ [])); pure tt)
      else pure tt

-- The result of fstat is not checked; when it fails, `st_size` is garbage.
abbrev pub st_size : ℕ → Reply ℕ → ℕ
st_size garbage (ok n) = n
st_size garbage (fail e) = garbage

unfoldable pub show_map : ℕ → ℕ → M (Unit {0})
show_map addr size = do bs ← call (load_map addr size); call (write 1 bs size); say "\n"; exit 0

unfoldable pub copy_out : ℕ → ℕ → M (Unit {0})
unfolding show_map
copy_out garbage fd = do
  stat ← call (fstat_size fd)
  let size = st_size garbage stat
  addr ← or_die "mmap\n" 1 (← call (mmap (pos fd) size))
  or_die "close\n" 1 (← call (close fd))
  show_map addr size

unfoldable pub main : ℕ → List Text → M (Unit {0})
unfolding check copy_out
main garbage argv = do
  check 2 argv
  name ← arg argv 1
  fd ← or_die "shm_open\n" 1 (← call (shm_open name (o_rdwr ∷ []) (pos 0)))
  copy_out garbage fd
