-- ===== src/Daemon/StdFds.antt =====
-- The standard descriptors of a daemon that closed all files.
use linux_unix_system_progra.Prelude.{
  ◌≢◌, ℕ, zero, suc, ◌+◌, ◌≤◌, ◌<◌, ◌≡◌, ℤ, pos, negsuc, true, codes, [], ◌∷◌, arith, ◌⊎◌, inl, inr,
  ◌==◌, Bool-cases,
}
use linux_unix_system_progra.Sys.{
  ebadf, Call, fork, setsid, ok, fail, o_rdwr, open_file, close, dup2, sysconf_open_max, Trace,
  Kernel, done,
}
use linux_unix_system_progra.Sys.View.{shut}
use linux_unix_system_progra.Sys.Files.{Closes, Opens}
use linux_unix_system_progra.Daemon.{
  limit_or_guess, close_all, close_files, drop_files, renew_std_fds, reopen_std_fds, adjust,
  become_daemon,
}

-- Standard output can be closed; the kernel refuses to duplicate it while it is closed; the limit on
-- descriptors is above 1; and /dev/null opens, under another number, as all lower ones are free.
pub record AllClosed (k : Kernel) (limit null_fd : ℕ) : Type 0 where
  pub close_1 : Closes k 1
  pub dup_closed : (t : Trace) → shut 1 t ≡ true → k t (dup2 1 (pos 0)) ≡ fail ebadf
  pub open_max : (t : Trace) → k t sysconf_open_max ≡ ok limit
  pub above : 1 < limit
  pub null_not_1 : null_fd ≢ 1
  pub null_ok : Opens k (codes "/dev/null") (o_rdwr ∷ []) 0 null_fd

module _ {k : Kernel} {limit null_fd : ℕ} (a : AllClosed k limit null_fd) where
  close_all-closed :
      (n fd : ℕ) (t u : Trace) (x : Unit {0})
      → (shut 1 t ≡ true) ⊎ ((fd ≤ 1) × (1 < fd + n))
      → close_all n fd k t ≡ done x u
      → shut 1 u ≡ true
  unfolding close_all shut
  close_all-closed zero fd t u x c h = ground arith
  close_all-closed (suc n) fd t u x c h =
      close_all-closed n (fd + 1) ((close fd, k t (close fd)) ∷ t) u x
        (elim (Bool-cases (fd == 1)) [
          | inl e ↦ inl (ground (arith, e, a.close_1.close_ok t))
          | inr e ↦ grind (arith, e)
        ])
        h

  drop_files-closed : (t u : Trace) (x : Unit {0}) → drop_files 0 k t ≡ done x u → shut 1 u ≡ true
  unfolding drop_files close_files limit_or_guess
  drop_files-closed t u x h =
      close_all-closed limit 0 ((sysconf_open_max, ok limit) ∷ t) u x (inr (omega (arith, a.above)))
        (simp a.open_max at h)

  reopen-fails :
      (t u : Trace) (r : ℤ) → shut 1 t ≡ true → reopen_std_fds k t ≡ done r u → r ≡ negsuc 0
  unfolding reopen_std_fds shut
  reopen-fails t u r c h =
      let one : Trace = (close 0, k t (close 0)) ∷ t in
      let null : Call = open_file (codes "/dev/null") (o_rdwr ∷ []) 0 in
      let two : Trace = (null, k one null) ∷ one in
      let three : Trace = (dup2 0 (pos null_fd), k two (dup2 0 (pos null_fd))) ∷ two in
      ground (arith, a.null_ok.open_ok one, a.null_not_1, a.dup_closed three)

  adjust-fails : (t u : Trace) (r : ℤ) → adjust 0 k t ≡ done r u → r ≡ negsuc 0
  unfolding adjust renew_std_fds
  adjust-fails t u r h = grind (arith, drop_files-closed, reopen-fails)

  -- If standard output can be closed, the kernel refuses to copy it while it is closed, the limit on
  -- descriptors is known and above 1, and /dev/null opens under another number than 1, then becomeDaemon
  -- with flags 0 returns -1 in every process in which it returns: the arguments of dup2 name the closed
  -- descriptor 1 as the one to copy.
  pub become_daemon-fails : (t u : Trace) (r : ℤ) → become_daemon 0 k t ≡ done r u → r ≡ negsuc 0
  unfolding become_daemon
  become_daemon-fails t u r h =
      let one : Trace = (fork, k t fork) ∷ t in
      let two : Trace = (setsid, k one setsid) ∷ one in
      let three : Trace = (fork, k two fork) ∷ two in ground (arith, adjust-fails three u r)
