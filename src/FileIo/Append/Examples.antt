-- ===== src/FileIo/Append/Examples.antt =====
-- Two bytes at the end of a file.
use linux_unix_system_progra.Prelude.{◌≡◌, refl, []}
use linux_unix_system_progra.Sys.{exited, halted}
use linux_unix_system_progra.Sys.Sample.{sample, trace}
use linux_unix_system_progra.FileIo.Append.{append}

append_exits : append 2 3 sample [] ≡ halted (exited 0) (trace (append 2 3 sample []))
unfolding append
append_exits = refl
