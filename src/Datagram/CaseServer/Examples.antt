-- ===== src/Datagram/CaseServer/Examples.antt =====
-- Datagrams of two letters.
use linux_unix_system_progra.Prelude.{codes}
use linux_unix_system_progra.Sys.{Kernel, ok, inet6, recvfrom}
use linux_unix_system_progra.Sys.Sample.{sample}

abbrev kernel : Kernel
kernel t (recvfrom fd n) = ok (codes "ab", inet6 (codes "::1") 9)
kernel t c = sample t c
