-- ===== src/ShmTransfer/Reader/Examples.antt =====
-- The reader of one block.
use linux_unix_system_progra.BinarySems.{release_sem}
use linux_unix_system_progra.ShmTransfer.Reader.{read_round}
use linux_unix_system_progra.BinarySems.{reserve_sem}
use linux_unix_system_progra.Prelude.{ℕ, ◌≡◌, refl, pos, [], Text, codes, length, zero, suc}
use linux_unix_system_progra.Sys.{Kernel, Trace, shm_cnt, shm_buf, loop}
use linux_unix_system_progra.Sys.Sample.{sample, trace}
use linux_unix_system_progra.Sys.View.{given}
use linux_unix_system_progra.ShmTransfer.Keys.{write_sem}
use linux_unix_system_progra.ShmTransfer.Reader.{main}
use linux_unix_system_progra.ShmTransfer.Reader.Blocks.{main-joined, Output}

abbrev block : ℕ → Text
block zero = codes "ab"
block (suc n) = []

abbrev kernel : Kernel
kernel t (shm_cnt seg) = pos (length (block (given 2 write_sem t)))
kernel t (shm_buf seg) = block (given 2 write_sem t)
kernel t c = sample t c

abbrev u : Trace
u = trace (main 3 kernel [])

main-joined_example : (n : ℕ) × Output block n u × (length (block n) ≡ 0)
unfolding main loop read_round reserve_sem given release_sem
main-joined_example =
    main-joined kernel 2 9 3 block u (λ t. refl) (λ t id. refl)
      (record { cnt_ok = λ t h. refl; buf_ok = λ t h. refl }) refl
