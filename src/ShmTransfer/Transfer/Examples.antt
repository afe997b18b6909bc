-- ===== src/ShmTransfer/Transfer/Examples.antt =====
-- Three bytes from the writer to the reader.
use linux_unix_system_progra.Prelude.{ℕ, ◌≡◌, refl, pos, [], Text, codes, length}
use linux_unix_system_progra.Sys.{Kernel, Trace, shm_cnt, shm_buf, loop}
use linux_unix_system_progra.Sys.Sample.{sample, feeding, trace}
use linux_unix_system_progra.Sys.View.{received, sent, stored_cnt, stored_blocks, given}
use linux_unix_system_progra.BinarySems.{
  init_sem_available, init_sem_in_use, reserve_sem, release_sem,
}
use linux_unix_system_progra.ShmTransfer.Keys.{write_sem}
use linux_unix_system_progra.ShmTransfer.Writer
use linux_unix_system_progra.ShmTransfer.Reader
use linux_unix_system_progra.ShmTransfer.Transfer.{nth_block, main-main}

abbrev writer_kernel : Kernel
writer_kernel t (shm_cnt seg) = stored_cnt seg t
writer_kernel t c = feeding (codes "abc") t c

abbrev u : Trace
u = trace (Writer.main 3 writer_kernel [])

abbrev block : ℕ → Text
block = nth_block (stored_blocks 9 u)

abbrev reader_kernel : Kernel
reader_kernel t (shm_cnt seg) = pos (length (block (given 2 write_sem t)))
reader_kernel t (shm_buf seg) = block (given 2 write_sem t)
reader_kernel t c = sample t c

abbrev v : Trace
v = trace (Reader.main 3 reader_kernel [])

main-main_example : sent 1 v ≡ received 0 u
unfolding Writer.main init_sem_available init_sem_in_use loop Writer.write_round reserve_sem
    release_sem stored_cnt received Reader.main Reader.read_round given stored_blocks nth_block
main-main_example =
    main-main writer_kernel reader_kernel 9 2 9 3 3 u v (λ t id. refl)
      (record { load_ok = λ t. refl }) refl (λ t. refl) (λ t id. refl)
      (record { cnt_ok = λ t h. refl; buf_ok = λ t h. refl }) refl
