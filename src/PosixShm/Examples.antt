-- ===== src/PosixShm/Examples.antt =====
-- Runs of the three tools.
use linux_unix_system_progra.Prelude.{[], codes, take}
use linux_unix_system_progra.Sys.{Kernel, Trace, ok, fstat_size, load_map}
use linux_unix_system_progra.Sys.Sample.{sample, trace}
use linux_unix_system_progra.PosixShm.Write
use linux_unix_system_progra.PosixShm.Read

-- The object after `pshm_write /m hi`.
abbrev object : Kernel
object t (fstat_size _) = ok 2
object t (load_map _ n) = take n (codes "hi")
object t c = sample t c

abbrev filled : Trace
filled = trace (Write.fill 3 (codes "hi") sample [])

abbrev shown : Trace
shown = trace (Read.copy_out 0 3 object [])
