-- ===== src/Daemon/Detach.antt =====
-- What a process that becomes a daemon has done.
use linux_unix_system_progra.Prelude.{ℕ, zero, suc, ◌+◌, ◌≡◌, ℤ, pos, negsuc, ◌∷◌, arith, ◌⊎◌}
use linux_unix_system_progra.Sys.{
  fork, setsid, close, sysconf_open_max, Trace, Kernel, End, exited, done, halted,
}
use linux_unix_system_progra.Sys.View.{child_forks, sessions}
use linux_unix_system_progra.Daemon.{
  limit_or_guess, close_all, close_files, clear_umask, to_root, drop_files, renew_std_fds,
  reopen_std_fds, adjust, become_daemon,
}

close_all-forks :
    (n fd : ℕ) (k : Kernel) (t u : Trace)
    → close_all n fd k t ≡ done tt u
    → (child_forks u ≡ child_forks t) × (sessions u ≡ sessions t)
unfolding close_all child_forks sessions
close_all-forks zero fd k t u h = ground arith
close_all-forks (suc n) fd k t u h =
    ground (arith, close_all-forks n (fd + 1) k ((close fd, k t (close fd)) ∷ t) u)

close_all-halted :
    (n fd : ℕ) (k : Kernel) (t u : Trace) (e : End) → close_all n fd k t ≡ halted e u → ⊥
unfolding close_all
close_all-halted zero fd k t u e h = ground arith
close_all-halted (suc n) fd k t u e h =
    close_all-halted n (fd + 1) k ((close fd, k t (close fd)) ∷ t) u e h

-- A part that neither forks nor begins a session.
abbrev Keeps : Trace → Trace → Type 0
Keeps t u = (child_forks u ≡ child_forks t) × (sessions u ≡ sessions t)

close_files-Keeps : (k : Kernel) (t u : Trace) → close_files k t ≡ done tt u → Keeps t u
unfolding close_files child_forks sessions
close_files-Keeps k t u h =
    close_all-forks (limit_or_guess (k t sysconf_open_max)) 0 k
      ((sysconf_open_max, k t sysconf_open_max) ∷ t) u h

module _ (flags : ℕ) (k : Kernel) (t u : Trace) where
  clear_umask-Keeps : (x : Unit {0}) → clear_umask flags k t ≡ done x u → Keeps t u
  unfolding clear_umask child_forks sessions
  clear_umask-Keeps x h = ground arith

  to_root-Keeps : (x : Unit {0}) → to_root flags k t ≡ done x u → Keeps t u
  unfolding to_root child_forks sessions
  to_root-Keeps x h = ground arith

  drop_files-Keeps : (x : Unit {0}) → drop_files flags k t ≡ done x u → Keeps t u
  unfolding drop_files child_forks sessions
  drop_files-Keeps x h = ground (arith, close_files-Keeps k t u)

  renew_std_fds-Keeps : (r : ℤ) → renew_std_fds flags k t ≡ done r u → Keeps t u
  unfolding renew_std_fds child_forks sessions
  renew_std_fds-Keeps r h = ground arith

module _ (flags : ℕ) (k : Kernel) (t u : Trace) where
  adjust-Keeps : (r : ℤ) → adjust flags k t ≡ done r u → Keeps t u
  unfolding adjust
  adjust-Keeps r h =
      grind (arith, clear_umask-Keeps, to_root-Keeps, drop_files-Keeps, renew_std_fds-Keeps)

  adjust-status : (r : ℤ) → adjust flags k t ≡ done r u → (r ≡ pos 0) ⊎ (r ≡ negsuc 0)
  unfolding adjust renew_std_fds
  adjust-status r h = grind arith

module _ (flags : ℕ) (k : Kernel) (t u : Trace) where
  -- In a process in which becomeDaemon returns, either it returns 0 and the process is the child of
  -- two forks and began one session, or it returns -1.
  pub become_daemon-forks :
      (r : ℤ)
      → become_daemon flags k t ≡ done r u
      → ((r ≡ pos 0) × (child_forks u ≡ child_forks t + 2) × (sessions u ≡ sessions t + 1))
        ⊎ (r ≡ negsuc 0)
  unfolding become_daemon child_forks sessions
  become_daemon-forks r h =
      let one : Trace = (fork, k t fork) ∷ t in
      let two : Trace = (setsid, k one setsid) ∷ one in
      let three : Trace = (fork, k two fork) ∷ two in
      ground (arith, adjust-status flags k three u r, adjust-Keeps flags k three u r)

-- Nothing in these steps ends the process, and only a parent ends in becomeDaemon.
adjust-halted : (k : Kernel) (t u : Trace) (e : End) → adjust 0 k t ≡ halted e u → ⊥
unfolding adjust clear_umask to_root drop_files renew_std_fds reopen_std_fds close_files
adjust-halted k t u e h = grind (arith, close_all-halted)

pub become_daemon-halted :
    (k : Kernel) (t u : Trace) (e : End) → become_daemon 0 k t ≡ halted e u → e ≡ exited 0
unfolding become_daemon
become_daemon-halted k t u e h =
    let one : Trace = (fork, k t fork) ∷ t in
    let two : Trace = (setsid, k one setsid) ∷ one in
    let three : Trace = (fork, k two fork) ∷ two in ground (arith, adjust-halted k three u e)
