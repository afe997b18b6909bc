-- ===== src/MessageFile/Server/Examples.antt =====
-- A file of three bytes.
use linux_unix_system_progra.MessageFile.Server.{receive_round}
use linux_unix_system_progra.Sys.{exited, halted, done}
use linux_unix_system_progra.Prelude.{◌≡◌}
use linux_unix_system_progra.MessageFile.Server.{main, grim_reaper}
use linux_unix_system_progra.MessageFile.Server.{send_round}
use linux_unix_system_progra.Prelude.{Text, ℕ, refl, [], codes}
use linux_unix_system_progra.Sys.{Kernel, Trace, loop}
use linux_unix_system_progra.Sys.Sample.{feeding, trace}
use linux_unix_system_progra.Sys.View.{received}
use linux_unix_system_progra.MessageFile.Protocol.{Request}
use linux_unix_system_progra.MessageFile.Server.{serve_request}
use linux_unix_system_progra.MessageFile.Server.Delivery.{Delivery}

abbrev kernel : Kernel
kernel = feeding (codes "abc")

abbrev request : Request
request = record { mtype = 1; client_id = 1; pathname = codes "f" }

abbrev stack : ℕ × Text
stack = (140737488355328, codes "stack")

abbrev u : Trace
u = trace (serve_request 3 stack request kernel [])

main_child_exits : main 3 stack kernel [] ≡ halted (exited 0) (trace (main 3 stack kernel []))
unfolding main loop receive_round send_round received
main_child_exits = refl

grim_reaper_returns : grim_reaper 1 kernel [] ≡ done tt (trace (grim_reaper 1 kernel []))
unfolding grim_reaper loop
grim_reaper_returns = refl
