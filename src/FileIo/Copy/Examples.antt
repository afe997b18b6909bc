-- ===== src/FileIo/Copy/Examples.antt =====
-- copy.c on a file of three bytes.
use linux_unix_system_progra.Prelude.{text_eq}
use linux_unix_system_progra.Prelude.{◌≡◌, refl, [], ◌∷◌, List, Text, codes, arith}
use linux_unix_system_progra.Sys.{Kernel, Trace, done}
use linux_unix_system_progra.Sys.Files.{Feeds}
use linux_unix_system_progra.Sys.Sample.{feeding, trace}
use linux_unix_system_progra.Sys.View.{sent}
use linux_unix_system_progra.FileIo.Copy.{main}
use linux_unix_system_progra.FileIo.Copy.Total.{main_total}

abbrev source : Text
source = codes "abc"

abbrev kernel : Kernel
kernel = feeding source

abbrev argv : List Text
argv = codes "copy" ∷ codes "a" ∷ codes "b" ∷ []

kernel-Feeds : Feeds kernel 3 source
kernel-Feeds = record {
  count = λ t n. n;
  count_le = λ t n. omega arith;
  count_pos = λ t n h. h;
  read_ok = λ t n. refl;
}

main_total_example : (u : Trace) × (main 4 argv kernel [] ≡ done 0 u) × (sent 4 u ≡ source)
unfolding text_eq
main_total_example =
    main_total kernel (codes "copy") (codes "a") (codes "b") 3 4 refl
      (record { open_ok = λ t. refl }) (record { open_ok = λ t. refl }) source 4 kernel-Feeds
      (record { write_ok = λ t bs. refl }) (record { close_ok = λ t. refl })
      (record { close_ok = λ t. refl }) (omega arith)

abbrev u : Trace
u = trace (main 4 argv kernel [])
