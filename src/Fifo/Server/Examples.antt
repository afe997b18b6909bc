-- ===== src/Fifo/Server/Examples.antt =====
-- Two requests for three numbers each.
use linux_unix_system_progra.Sys.{halted}
use linux_unix_system_progra.Fifo.Server.{on_sigint}
use linux_unix_system_progra.Prelude.{◌≡◌, refl, []}
use linux_unix_system_progra.Sys.{Kernel, ok, read, exited}
use linux_unix_system_progra.Sys.Sample.{sample, trace}
use linux_unix_system_progra.Fifo.Wire.{encode_request}

abbrev kernel : Kernel
kernel t (read fd n) = ok (encode_request (record { seq_len = 3; pid = 7 }))
kernel t c = sample t c

on_sigint_exits : on_sigint kernel [] ≡ halted (exited 0) (trace (on_sigint kernel []))
unfolding on_sigint
on_sigint_exits = refl
