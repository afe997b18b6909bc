-- ===== src/ShmTransfer/Reader.antt =====
-- TLPI/chapter48/svshm_xfr_reader.c: the blocks of the segment go to standard output.
mod Examples
pub mod Blocks
use linux_unix_system_progra.Prelude.{
  ℕ, ◌+◌, ℤ, pos, negsuc, Bool, true, false, List, [], ◌∷◌, Text, if◌then◌else◌, int_eq, int_size,
  bits_int,
}
use linux_unix_system_progra.Sys.{
  Reply, ok, fail, Arg, int, eprintf, semget, shmget, shmat, shmdt, write, shm_cnt, shm_buf, M,
  ◌>>=◌, ◌>>◌, pure, call, exit, die, int_of, or_die, Round, next, leave, loop,
}
use linux_unix_system_progra.BinarySems.{defaults, reserve_sem, release_sem}
use linux_unix_system_progra.ShmTransfer.Keys.{
  shm_key, sem_key, obj_perms, write_sem, read_sem, segment_size,
}
use linux_unix_system_progra.ShmTransfer.Writer.{Totals, added, is_zero}

-- Every mention of shmp->cnt is a load of its own. The last one is in the third part of the `for`,
-- after the writer has been let go on.
pub show_block : ℕ → ℕ → Totals → M (Round Totals Totals)
show_block semid seg s = do
  cnt ← call (shm_cnt seg)
  if is_zero cnt then pure (leave s) else (do
    expected ← call (shm_cnt seg)
    buf ← call (shm_buf seg)
    cnt ← call (shm_cnt seg)
    written ← call (write 1 buf (int_size cnt))
    if int_eq expected (int_of written)
        then (do
          or_die "releaseSem\n" 1 (← release_sem defaults semid write_sem)
          cnt ← call (shm_cnt seg)
          pure (next (record { xfrs = added s.xfrs (pos 1); bytes = added s.bytes cnt })))
        else die "write\n" 1)

unfoldable pub read_round : ℕ → ℕ → ℕ → Totals → M (Round Totals Totals)
unfolding show_block
read_round fuel semid seg s = do
  or_die "reserveSem\n" 1 (← reserve_sem fuel defaults semid read_sem)
  show_block semid seg s

unfoldable pub finish : ℕ → ℕ → Totals → M (Unit {0})
finish semid seg s = do
  or_die "shmdt\n" 1 (← call (shmdt seg))
  or_die "releaseSem\n" 1 (← release_sem defaults semid write_sem)
  call (
      eprintf "Received %d bytes (%d xfrs)\n" (int (bits_int s.bytes) ∷ int (bits_int s.xfrs) ∷ []))
  exit 0

unfoldable pub set_up : M (ℕ × ℕ)
set_up = do
  semid ← or_die "semget\n" 1 (← call (semget sem_key [] obj_perms))
  shmid ← or_die "shmget\n" 1 (← call (shmget shm_key segment_size [] obj_perms))
  seg ← or_die "shmp\n" 1 (← call (shmat shmid))
  pure (semid, seg)

unfoldable pub main : ℕ → M (Unit {0})
unfolding finish set_up
main fuel = do
  (semid, seg) ← set_up
  totals ← loop fuel (read_round fuel semid seg) (record { xfrs = 0; bytes = 0 })
  finish semid seg totals
