-- ===== src/FileIo/CpHole/Examples.antt =====
-- cp_hole.c on a file with a block of zeros.
use linux_unix_system_progra.Prelude.{all_zero}
use linux_unix_system_progra.FileIo.CpHole.{copy_round}
use linux_unix_system_progra.FileIo.CpHole.{copy_block}
use linux_unix_system_progra.Prelude.{
  ℕ, ◌+◌, ◌≡◌, refl, pos, [], ◌∷◌, ◌++◌, List, Text, codes, take, drop, length,
}
use linux_unix_system_progra.Sys.{Kernel, Trace, ok, read, lseek, seek_cur, loop}
use linux_unix_system_progra.Sys.Sample.{sample, trace}
use linux_unix_system_progra.Sys.View.{received}
use linux_unix_system_progra.Sys.Image.{image, fresh}
use linux_unix_system_progra.FileIo.CpHole.{main}
use linux_unix_system_progra.FileIo.CpHole.Content.{main-image}

abbrev source : Text
source = codes "ab" ++ 0 ∷ 0 ∷ codes "cd"

-- Reads return two bytes.
abbrev kernel : Kernel
kernel t (read fd n) = ok (take 2 (drop (length (received fd t)) source))
kernel t (lseek fd (pos n) seek_cur) = ok ((image fd fresh t).offset + n)
kernel t c = sample t c

abbrev argv : List Text
argv = codes "cp_hole" ∷ codes "a" ∷ codes "b" ∷ []

abbrev u : Trace
u = trace (main 4 argv kernel [])

main-image_example : (◌≡◌ {A = ℕ} 0 0) × ((image 4 fresh u).content ≡ received 3 u)
unfolding main loop copy_round received copy_block all_zero
main-image_example =
    main-image kernel (codes "cp_hole") (codes "a") (codes "b") 3 4 (record { open_ok = λ t. refl })
      (record { open_ok = λ t. refl }) 4 0 u
      (record { seek_ok = λ t n. refl; truncate_ok = λ t n. refl }) refl
