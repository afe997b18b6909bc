-- ===== src/ShmTransfer/Writer/Examples.antt =====
-- The writer on three bytes.
use linux_unix_system_progra.BinarySems.{release_sem}
use linux_unix_system_progra.ShmTransfer.Writer.{write_round}
use linux_unix_system_progra.BinarySems.{init_sem_available}
use linux_unix_system_progra.BinarySems.{init_sem_in_use}
use linux_unix_system_progra.BinarySems.{reserve_sem}
use linux_unix_system_progra.Prelude.{
  ℕ, ◌%◌, ◌^◌, bits_int, ◌≡◌, refl, some, [], ◌∷◌, codes, length,
}
use linux_unix_system_progra.Sys.{Kernel, Trace, shm_cnt, int, loop}
use linux_unix_system_progra.Sys.Sample.{feeding, trace}
use linux_unix_system_progra.Sys.View.{received, stored, stored_cnt, last_report}
use linux_unix_system_progra.ShmTransfer.Writer.{main}
use linux_unix_system_progra.ShmTransfer.Writer.Blocks.{main-stored}

abbrev kernel : Kernel
kernel t (shm_cnt seg) = stored_cnt seg t
kernel t c = feeding (codes "abc") t c

abbrev u : Trace
u = trace (main 3 kernel [])

main-stored_example :
    (xfrs : ℕ) × (stored 9 u ≡ received 0 u)
    × (last_report u
        ≡ some (
          "Sent %d bytes (%d xfrs)\n",
          int (bits_int (length (received 0 u) % 2 ^ 32)) ∷ int (bits_int xfrs) ∷ [],
        ))
unfolding main init_sem_available init_sem_in_use loop write_round reserve_sem release_sem
    stored_cnt received
main-stored_example = main-stored kernel 9 3 u (λ t id. refl) (record { load_ok = λ t. refl }) refl
