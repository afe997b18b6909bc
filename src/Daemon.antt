-- ===== src/Daemon.antt =====
-- TLPI/chapter37/become_daemon.c and become_daemon.h.
mod Examples
pub mod Detach
pub mod StdFds
use linux_unix_system_progra.Prelude.{
  ℕ, zero, suc, ◌+◌, ℤ, pos, negsuc, Bool, true, false, not, List, [], ◌∷◌, codes, if◌then◌else◌,
  int_eq, has_bit,
}
use linux_unix_system_progra.Sys.{
  Reply, ok, fail, o_rdwr, open_file, close, dup2, sysconf_open_max, umask, chdir, fork, setsid, M,
  ◌>>=◌, ◌>>◌, pure, call, exit, int_of,
}

abbrev pub bd_no_chdir : ℕ
bd_no_chdir = 0o1

abbrev pub bd_no_close_files : ℕ
bd_no_close_files = 0o2

abbrev pub bd_no_reopen_std_fds : ℕ
bd_no_reopen_std_fds = 0o4

abbrev pub bd_no_umask0 : ℕ
bd_no_umask0 = 0o10

abbrev pub bd_max_close : ℕ
bd_max_close = 8192

-- for (fd = 0; fd < maxfd; fd++) close(fd); with the rounds left and the next descriptor.
unfoldable pub close_all : ℕ → ℕ → M (Unit {0})
close_all zero fd = pure tt
close_all (suc n) fd = let rest = close_all n (fd + 1) in do call (close fd); rest

-- Lines 33 to 35: an indeterminate limit is replaced by a guess.
unfoldable pub limit_or_guess : Reply ℕ → ℕ
limit_or_guess (ok n) = n
limit_or_guess (fail e) = bd_max_close

unfoldable pub close_files : M (Unit {0})
close_files = do limit ← call sysconf_open_max; close_all (limit_or_guess limit) 0

-- Lines 40 to 50, with the order of the arguments of dup2 that the program has.
pub reopen_std_fds : M ℤ
reopen_std_fds = do
  call (close 0)
  opened ← call (open_file (codes "/dev/null") (o_rdwr ∷ []) 0)
  let fd = int_of opened
  duplicated ← call (dup2 0 fd)
  if not (int_eq fd (int_of duplicated)) then pure (negsuc 0) else do
    duplicated ← call (dup2 1 (pos 0))
    if not (int_eq fd (int_of duplicated)) then pure (negsuc 0) else do
      duplicated ← call (dup2 2 (pos 0))
      if not (int_eq fd (int_of duplicated)) then pure (negsuc 0) else pure (pos 0)

-- The four steps that a flag can switch off.
unfoldable pub clear_umask : ℕ → M (Unit {0})
clear_umask flags = if has_bit flags bd_no_umask0 then pure tt else (do call (umask 0); pure tt)

unfoldable pub to_root : ℕ → M (Unit {0})
to_root flags =
    if has_bit flags bd_no_chdir then pure tt else (do call (chdir (codes "/")); pure tt)

unfoldable pub drop_files : ℕ → M (Unit {0})
drop_files flags = if has_bit flags bd_no_close_files then pure tt else close_files

unfoldable pub renew_std_fds : ℕ → M ℤ
unfolding reopen_std_fds
renew_std_fds flags = if has_bit flags bd_no_reopen_std_fds then pure (pos 0) else reopen_std_fds

-- Lines 24 to 51, in the process that remains.
unfoldable pub adjust : ℕ → M ℤ
adjust flags = do clear_umask flags; to_root flags; drop_files flags; renew_std_fds flags

-- _exit in each parent, which runs no handlers.
unfoldable pub become_daemon : ℕ → M ℤ
become_daemon flags = do
  first ← call fork
  elim first [
    | fail e ↦ pure (negsuc 0)
    | ok (suc pid) ↦ exit 0
    | ok zero ↦ do
      session ← call setsid
      elim session [
        | fail e ↦ pure (negsuc 0)
        | ok _ ↦ do
          second ← call fork
          elim second [ fail e ↦ pure (negsuc 0) | ok (suc pid) ↦ exit 0 | ok zero ↦ adjust flags ]
      ]
  ]
