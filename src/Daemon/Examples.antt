-- ===== src/Daemon/Examples.antt =====
-- Daemons with and without their files.
use linux_unix_system_progra.Daemon.{limit_or_guess}
use linux_unix_system_progra.Daemon.{close_files}
use linux_unix_system_progra.Daemon.{close_all}
use linux_unix_system_progra.Daemon.{clear_umask}
use linux_unix_system_progra.Daemon.{to_root}
use linux_unix_system_progra.Daemon.{renew_std_fds}
use linux_unix_system_progra.Daemon.{adjust}
use linux_unix_system_progra.Daemon.{drop_files}
use linux_unix_system_progra.Prelude.{
  ◌≡◌, refl, pos, negsuc, [], codes, arith, if◌then◌else◌, zero, suc,
}
use linux_unix_system_progra.Sys.{Kernel, Trace, ok, fail, ebadf, inet6, dup2, recvfrom}
use linux_unix_system_progra.Sys.Sample.{sample, trace}
use linux_unix_system_progra.Sys.View.{shut}
use linux_unix_system_progra.Daemon.{become_daemon}
use linux_unix_system_progra.Daemon.StdFds.{AllClosed, become_daemon-fails}

abbrev kernel : Kernel
kernel t (dup2 (suc zero) (pos zero)) = if shut 1 t then fail ebadf else ok 0
kernel t (recvfrom fd n) = ok (codes "ab", inet6 (codes "::1") 9)
kernel t c = sample t c

kernel-AllClosed : AllClosed kernel 4 4
kernel-AllClosed = record {
  close_1 = record { close_ok = λ t. refl };
  dup_closed = λ t h. rw h;
  open_max = λ t. refl;
  above = omega arith;
  null_not_1 = omega arith;
  null_ok = record { open_ok = λ t. refl };
}

abbrev v : Trace
v = trace (become_daemon 0 kernel [])

become_daemon-fails_example : negsuc 0 ≡ negsuc 0
unfolding become_daemon adjust clear_umask to_root drop_files close_files close_all limit_or_guess
    renew_std_fds shut
become_daemon-fails_example = become_daemon-fails kernel-AllClosed [] v (negsuc 0) refl
