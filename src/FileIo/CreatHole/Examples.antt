-- ===== src/FileIo/CreatHole/Examples.antt =====
-- creat_hole_file.c as a whole.
use linux_unix_system_progra.Prelude.{◌≡◌, refl, []}
use linux_unix_system_progra.Sys.{exited, halted}
use linux_unix_system_progra.Sys.Sample.{sample, trace}
use linux_unix_system_progra.FileIo.CreatHole.{create, main}

main_exits : main sample [] ≡ halted (exited 0) (trace (main sample []))
unfolding main create
main_exits = refl
