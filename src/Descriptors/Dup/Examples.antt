-- ===== src/Descriptors/Dup/Examples.antt =====
-- Copying descriptor 3 to a free number, and to one in use.
use linux_unix_system_progra.Descriptors.Dup.{main}
use linux_unix_system_progra.Prelude.{◌≡◌, refl, [], ◌==◌, if◌then◌else◌}
use linux_unix_system_progra.Sys.{Kernel, ok, fail, ebadf, done, fcntl_getfl, sysconf_open_max}
use linux_unix_system_progra.Sys.Sample.{sample, trace}

-- Only descriptor 4 is open.
abbrev opened : Kernel
opened t (fcntl_getfl fd) = if fd == 4 then ok [] else fail ebadf
opened t sysconf_open_max = ok 100
opened t c = sample t c

main_returns : main opened [] ≡ done 0 (trace (main opened []))
unfolding main
main_returns = refl
