-- ===== src/ShmTransfer/Keys.antt =====
-- The constants of TLPI/chapter48/svshm_xfr.h.
use linux_unix_system_progra.Prelude.{ℕ, pos}
use linux_unix_system_progra.Sys.{Key, key}

abbrev pub shm_key : Key
shm_key = key (pos 0x1234)

abbrev pub sem_key : Key
sem_key = key (pos 0x5678)

abbrev pub obj_perms : ℕ
obj_perms = 0o660

abbrev pub write_sem : ℕ
write_sem = 0

abbrev pub read_sem : ℕ
read_sem = 1

abbrev pub buf_size : ℕ
buf_size = 1024

-- sizeof(struct shmseg): an `int` and the buffer.
abbrev pub segment_size : ℕ
segment_size = 1028
