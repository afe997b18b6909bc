-- ===== src/MessageFile/Client/Examples.antt =====
-- One message of data, and the last one.
use linux_unix_system_progra.Sys.{exited, halted}
use linux_unix_system_progra.Prelude.{List, Text}
use linux_unix_system_progra.MessageFile.Client.{main}
use linux_unix_system_progra.MessageFile.Client.{receive_round}
use linux_unix_system_progra.Prelude.{◌≡◌, refl, [], ◌∷◌, codes, length, ◌==◌, if◌then◌else◌}
use linux_unix_system_progra.Sys.{Kernel, ok, msgrcv, loop}
use linux_unix_system_progra.Sys.Sample.{sample, trace}
use linux_unix_system_progra.Sys.View.{accepted}

abbrev kernel : Kernel
kernel t (msgrcv id _ _ _) =
    if length (accepted id t) == 0 then ok (2, codes "abc") else ok (1, codes "end")
kernel t c = sample t c

abbrev argv : List Text
argv = codes "client" ∷ codes "f" ∷ []

main_exits : main 3 argv kernel [] ≡ halted (exited 0) (trace (main 3 argv kernel []))
unfolding main accepted loop receive_round
main_exits = refl
