-- ===== src/Fifo/Client/Examples.antt =====
-- A client that gets a reply of four bytes.
use linux_unix_system_progra.Fifo.Client.{conclude}
use linux_unix_system_progra.Sys.Sample.{trace}
use linux_unix_system_progra.Prelude.{refl, List}
use linux_unix_system_progra.Fifo.Client.{main}
use linux_unix_system_progra.Prelude.{◌≡◌, [], ◌∷◌, Text, codes, drop, length, arith, length-take}
use linux_unix_system_progra.Sys.{Kernel, Trace, halted, exited}
use linux_unix_system_progra.Sys.Sample.{feeding}
use linux_unix_system_progra.Sys.View.{received}
use linux_unix_system_progra.Fifo.Wire.{Request}
use linux_unix_system_progra.Fifo.Client.{ask}
use linux_unix_system_progra.Fifo.Client.Outcome.{ask_fails, removals}

abbrev reply : Text
reply = 1 ∷ 0 ∷ 0 ∷ 0 ∷ []

abbrev kernel : Kernel
kernel = feeding reply

abbrev request : Request
request = record { seq_len = 1; pid = 7 }

ask_fails_example :
    (u : Trace) × (ask (codes "f") 4 request kernel [] ≡ halted (exited 1) u)
    × (removals u ≡ codes "f" ∷ [])
unfolding removals
ask_fails_example = ask_fails (codes "f") 4 request kernel [] (record {
  read_le = λ t fd n. omega (arith, length-take n (drop (length (received fd t)) reply));
})

abbrev argv : List Text
argv = codes "client" ∷ codes "3" ∷ []

main_fails : main argv kernel [] ≡ halted (exited 1) (trace (main argv kernel []))
unfolding main conclude received
main_fails = refl
