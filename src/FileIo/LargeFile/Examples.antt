-- ===== src/FileIo/LargeFile/Examples.antt =====
-- Four bytes behind a hole of two.
use linux_unix_system_progra.Prelude.{◌≡◌, refl, [], codes, arith, atoi}
use linux_unix_system_progra.Sys.{Trace}
use linux_unix_system_progra.Sys.Sample.{sample, trace}
use linux_unix_system_progra.Sys.Image.{image, fresh, overwrite}
use linux_unix_system_progra.FileIo.LargeFile.{write_at}
use linux_unix_system_progra.FileIo.LargeFile.Content.{write_at-image}

abbrev u : Trace
u = trace (write_at (codes "f") (codes "2") sample [])

write_at-image_example :
    image 4 fresh u
    ≡ overwrite (record { content = (image 4 fresh []).content; offset = 2 }) (codes "test")
unfolding write_at atoi
write_at-image_example =
    write_at-image (codes "f") (codes "2") sample 4 2 fresh [] u refl
      (record { seek_ok = λ t n p h. ground (arith, h); whole = λ t bs n m h. ground (arith, h) })
      refl refl
