-- ===== src/Descriptors/Dup.antt =====
-- TLPI/chapter5/exercise/dup.c: dup and dup2 made from fcntl.
mod Examples
pub mod Target
use linux_unix_system_progra.Prelude.{
  ℕ, ◌+◌, ltb, ◌==◌, ◌||◌, ◌&&◌, not, ℤ, pos, negsuc, int_eq, Bool, true, false, List, [], ◌∷◌,
  ◌++◌, Text, codes, if◌then◌else◌, length,
}
use linux_unix_system_progra.Fifo.Wire.{decimal}
use linux_unix_system_progra.Sys.{
  Errno, ebadf, Reply, ok, fail, o_rdwr, o_creat, int, num, printf, open_file, close, write,
  fcntl_getfl, fcntl_dupfd, sysconf_open_max, M, ◌>>=◌, ◌>>◌, pure, call, die, say, int_of,
}

pub my_dup : ℕ → M ℤ
my_dup old_fd = do copied ← call (fcntl_dupfd old_fd 3); pure (int_of copied)

abbrev is_ebadf : Errno → Bool
is_ebadf ebadf = true
is_ebadf _ = false

-- -1 for a number that is no open descriptor, and 0 otherwise.
pub is_file_descripter : ℕ → M ℤ
is_file_descripter fd = do
  flags ← call (fcntl_getfl fd)
  elim flags [
    | ok _ ↦ pure (pos 0)
    | fail e ↦
        if is_ebadf e
        then (do call (printf "未占用的fd: %d.\n" (num fd ∷ [])); pure (negsuc 0))
        else pure (pos 0)
  ]

-- newFd > sysconf(_SC_OPEN_MAX), where a limit of -1 is below every descriptor.
pub above : ℕ → Reply ℕ → Bool
above n (ok limit) = ltb limit n
above n (fail e) = true

-- Lines 42 to 65.
pub copy_to : ℕ → ℕ → M ℤ
unfolding is_file_descripter
copy_to old_fd new_fd =
    if old_fd == new_fd then (do say "newFd is equal to oldFd\n"; pure (pos new_fd)) else do
      status ← is_file_descripter new_fd
      if int_eq status (pos 0) then pure tt else (do call (close new_fd); pure tt)
      status ← is_file_descripter old_fd
      if int_eq status (negsuc 0) then (do say "Bad oldFd"; pure (negsuc 0)) else do
        copied ← call (fcntl_dupfd old_fd new_fd)
        if int_eq (int_of copied) (pos new_fd) then pure (pos new_fd) else pure (negsuc 0)

-- The parts of the first condition are evaluated from the left, up to the first that holds.
pub my_dup2 : ℕ → ℤ → M ℤ
unfolding above copy_to
my_dup2 old_fd (negsuc n) = do say "newFd out of range.\n"; pure (negsuc 0)
my_dup2 old_fd (pos new_fd) = do
  limit ← call sysconf_open_max
  if above new_fd limit then (do say "newFd out of range.\n"; pure (negsuc 0)) else (do
    status ← is_file_descripter new_fd
    if int_eq status (pos 0)
        then (do say "newFd out of range.\n"; pure (negsuc 0))
        else copy_to old_fd new_fd)

abbrev number : ℤ → ℕ
number (pos n) = n
number (negsuc n) = 0

-- A line through a descriptor: `sizeof` counts the terminator of the text, and `extra` the bytes for
-- the number. What stands behind the terminator of the new line was never set.
pub write_line : ℕ → Text → ℕ → Text → M (Unit {0})
write_line fd text extra tail = do
  call (write fd (text ++ (tail ++ 0 ∷ [])) (length text + 1 + extra))
  pure tt

pub main : M ℕ
unfolding my_dup my_dup2 write_line decimal
main = do
  opened ← call (open_file (codes "test.txt") (o_rdwr ∷ o_creat ∷ []) 0o600)
  call (printf "fd: %d: \n" (int (int_of opened) ∷ []))
  fd ← elim opened [ ok fd ↦ pure fd | fail e ↦ die "open test.txt error.\n" 1 ]
  fd_dup ← my_dup fd
  call (printf "fd_dup: %d\n" (int fd_dup ∷ []))
  if int_eq fd_dup (negsuc 0) then die "my_dup error.\n" 1 else pure tt
  fd_dup2 ← my_dup2 fd (pos 66)
  if int_eq fd_dup2 (negsuc 0) then die "my_dup2 error.\n" 1 else pure tt
  call (printf "fd_dup2: %d\n" (int fd_dup2 ∷ []))
  write_line fd (codes "Hello I'm fd!\n") 0 []
  write_line (number fd_dup) (codes "Hello, I'm dup! my file descriptor is : ") 4
      (decimal (number fd_dup) ++ codes "\n")
  write_line (number fd_dup2) (codes "Hello, I'm dup2! my file descriptor is : ") 4
      (decimal (number fd_dup2) ++ codes "\n")
  say "Success.\n"
  pure 0
