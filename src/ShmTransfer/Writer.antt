-- ===== src/ShmTransfer/Writer.antt =====
-- TLPI/chapter48/svshm_xfr_writer.c: standard input goes to the segment, block by block.
mod Examples
pub mod Blocks
pub mod Turns
use linux_unix_system_progra.Prelude.{
  ℕ, ◌+◌, ◌%◌, ◌^◌, ◌==◌, int_bits, bits_int, ℤ, pos, negsuc, String, Bool, true, false, List, [],
  ◌∷◌, Text, if◌then◌else◌, length,
}
use linux_unix_system_progra.Sys.{
  Reply, ok, fail, ipc_creat, Arg, num, int, eprintf, semget, shmget, shmat, shmdt, semctl_rmid,
  shmctl_rmid, read, shm_cnt, set_shm_cnt, set_shm_buf, M, ◌>>=◌, ◌>>◌, pure, call, exit, die,
  or_die, Round, next, leave, loop,
}
use linux_unix_system_progra.BinarySems.{
  defaults, init_sem_available, init_sem_in_use, reserve_sem, release_sem,
}
use linux_unix_system_progra.ShmTransfer.Keys.{
  shm_key, sem_key, obj_perms, write_sem, read_sem, buf_size, segment_size,
}

-- `xfrs` and `bytes`, two `int`s, as bit patterns.
pub record Totals : Type 0 where
  pub xfrs : ℕ
  pub bytes : ℕ

-- total += cnt for `int`s: the overflow is undefined in C, and wraps around here.
abbrev pub added : ℕ → ℤ → ℕ
added total cnt = (total + int_bits cnt) % 2 ^ 32

abbrev pub is_zero : ℤ → Bool
is_zero (pos n) = if n == 0 then true else false
is_zero (negsuc n) = false

-- read(STDIN_FILENO, shmp->buf, BUF_SIZE) into the segment, and its result into shmp->cnt.
unfoldable pub fill : ℕ → M (Unit {0})
fill seg = do
  block ← call (read 0 buf_size)
  elim block [
    | fail e ↦ do call (set_shm_cnt seg (negsuc 0)); die "read STDIN_FILENO\n" 1
    | ok bs ↦ do call (set_shm_buf seg bs); call (set_shm_cnt seg (pos (length bs)))
  ]

unfoldable pub write_round : ℕ → ℕ → ℕ → Totals → M (Round Totals Totals)
unfolding fill
write_round fuel semid seg s = do
  or_die "reserveSem\n" 1 (← reserve_sem fuel defaults semid write_sem)
  fill seg
  or_die "releaseSem\n" 1 (← release_sem defaults semid read_sem)
  cnt ← call (shm_cnt seg)
  if is_zero cnt then pure (leave s) else (do
    cnt ← call (shm_cnt seg)
    pure (next (record { xfrs = added s.xfrs (pos 1); bytes = added s.bytes cnt })))

unfoldable pub set_up : M (ℕ × ℕ × ℕ)
set_up = do
  semid ← or_die "semget\n" 1 (← call (semget sem_key (ipc_creat ∷ []) obj_perms))
  or_die "initSemAvailable\n" 1 (← init_sem_available semid write_sem)
  or_die "initSemInUse\n" 1 (← init_sem_in_use semid read_sem)
  shmid ← or_die "shmget\n" 1 (← call (shmget shm_key segment_size (ipc_creat ∷ []) obj_perms))
  seg ← or_die "shmat\n" 1 (← call (shmat shmid))
  pure (semid, shmid, seg)

-- Lines 67 to 94, after the reader has taken the empty block.
unfoldable pub finish : ℕ → ℕ → ℕ → ℕ → Totals → M (Unit {0})
finish fuel semid shmid seg s = do
  or_die "reserveSem outside the for loop.\n" 1 (← reserve_sem fuel defaults semid write_sem)
  or_die "semctl\n" 1 (← call (semctl_rmid semid))
  or_die "shmdt\n.\n" 1 (← call (shmdt seg))
  or_die "shmctl\n" 1 (← call (shmctl_rmid shmid))
  call (eprintf "Sent %d bytes (%d xfrs)\n" (int (bits_int s.bytes) ∷ int (bits_int s.xfrs) ∷ []))
  exit 0

unfoldable pub main : ℕ → M (Unit {0})
unfolding set_up finish
main fuel = do
  (semid, shmid, seg) ← set_up
  totals ← loop fuel (write_round fuel semid seg) (record { xfrs = 0; bytes = 0 })
  finish fuel semid shmid seg totals
