-- ===== src/Pipe/LsWc/Examples.antt =====
-- A pipe with the ends 3 and 4.
use linux_unix_system_progra.Pipe.LsWc.{parent_end}
use linux_unix_system_progra.Sys.{halted, Kernel, ok, fork}
use linux_unix_system_progra.Pipe.LsWc.{main}
use linux_unix_system_progra.Prelude.{◌≡◌, refl, []}
use linux_unix_system_progra.Sys.{Trace, exited}
use linux_unix_system_progra.Sys.Sample.{sample, trace}
use linux_unix_system_progra.Pipe.LsWc.{ls_child}

abbrev u : Trace
u = trace (ls_child 3 4 sample [])

-- The process that fork leaves as the parent.
abbrev parents : Kernel
parents t fork = ok 8
parents t c = sample t c

main_exits : main parents [] ≡ halted (exited 0) (trace (main parents []))
unfolding main parent_end
main_exits = refl
