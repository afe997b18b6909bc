-- ===== src/Datagram/EchoServer/Examples.antt =====
-- The server on a kernel that refuses to copy a closed descriptor.
use linux_unix_system_progra.Prelude.{
  ◌≡◌, ◌⊎◌, refl, pos, [], codes, arith, if◌then◌else◌, zero, suc,
}
use linux_unix_system_progra.Sys.{
  Kernel, Trace, End, halted, ok, fail, exited, ebadf, inet6, dup2, recvfrom,
}
use linux_unix_system_progra.Sys.Sample.{sample}
use linux_unix_system_progra.Sys.View.{shut}
use linux_unix_system_progra.Daemon.StdFds.{AllClosed}
use linux_unix_system_progra.Datagram.EchoServer.{main}
use linux_unix_system_progra.Datagram.EchoServer.Silence.{main-gone}

abbrev kernel : Kernel
kernel t (dup2 (suc zero) (pos zero)) = if shut 1 t then fail ebadf else ok 0
kernel t (recvfrom fd n) = ok (codes "ab", inet6 (codes "::1") 9)
kernel t c = sample t c

kernel-AllClosed : AllClosed kernel 4 4
kernel-AllClosed = record {
  close_1 = record { close_ok = λ t. refl };
  dup_closed = λ t h. rw h;
  open_max = λ t. refl;
  above = omega arith;
  null_not_1 = omega arith;
  null_ok = record { open_ok = λ t. refl };
}

main-gone_example :
    (u : Trace) × (e : End) × (main 2 kernel [] ≡ halted e u) × ((e ≡ exited 0) ⊎ (e ≡ exited 1))
main-gone_example = main-gone kernel 4 4 2 kernel-AllClosed
