-- ===== src/Datagram/CaseClient/Examples.antt =====
-- Two messages.
use linux_unix_system_progra.Prelude.{◌≡◌, refl, [], ◌∷◌, List, Text, codes}
use linux_unix_system_progra.Sys.{exited, halted}
use linux_unix_system_progra.Sys.Sample.{sample, trace}
use linux_unix_system_progra.Datagram.CaseClient.{server_address, talk, main}

abbrev argv : List Text
argv = codes "client" ∷ codes "::1" ∷ codes "ab" ∷ codes "c" ∷ []

main_exits : main argv sample [] ≡ halted (exited 0) (trace (main argv sample []))
unfolding main server_address talk
main_exits = refl
