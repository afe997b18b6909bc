-- ===== src/FileIo/Tee/Examples.antt =====
-- tee.c on three bytes.
use linux_unix_system_progra.FileIo.Tee.{tee_round}
use linux_unix_system_progra.Prelude.{ℕ, ◌≡◌, ◌⊎◌, refl, [], ◌∷◌, List, Text, codes}
use linux_unix_system_progra.Sys.{Kernel, Trace, done, loop}
use linux_unix_system_progra.Sys.Sample.{feeding, trace}
use linux_unix_system_progra.Sys.View.{received, sent}
use linux_unix_system_progra.FileIo.Tee.{main, open_target}
use linux_unix_system_progra.FileIo.Tee.Output.{main-teed}

abbrev kernel : Kernel
kernel = feeding (codes "abc")

abbrev argv : List Text
argv = codes "tee" ∷ codes "f" ∷ []

abbrev u : Trace
u = trace (main 4 argv kernel [])

main-teed_example :
    (◌≡◌ {A = ℕ} 0 0)
    × (fd : ℕ) × (v : Trace) × (open_target argv kernel [] ≡ done fd v)
    × ((fd ≡ 1) ⊎ ((sent fd u ≡ received 0 u) × (sent 1 u ≡ received 0 u)))
unfolding main loop tee_round received
main-teed_example = main-teed 4 0 argv kernel u refl
