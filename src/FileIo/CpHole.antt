-- ===== src/FileIo/CpHole.antt =====
-- TLPI/chapter4/cp_hole.c: copies a file and keeps its holes: a block of zeros becomes a seek.
mod Examples
pub mod Content
use linux_unix_system_progra.Prelude.{
  ℕ, String, ltb, List, [], ◌∷◌, Text, if◌then◌else◌, length, ℤ, pos, negsuc, all_zero,
}
use linux_unix_system_progra.Sys.{
  Reply, ok, fail, o_rdonly, o_wronly, o_creat, seek_cur, perror, open_file, read, write, lseek,
  ftruncate, M, ◌>>=◌, ◌>>◌, pure, call, exit, returned, arg, Round, next, leave, loop,
}

abbrev pub buf_size : ℕ
buf_size = 4096

-- perror(message); exit(EXIT_FAILURE);
abbrev fault : {A : Type 0} → String → M A
fault s = call (perror s) >> exit 1

abbrev or_fault : {A : Type 0} → String → Reply A → M A
or_fault s (ok a) = pure a
or_fault s (fail e) = fault s

-- Lines 52 to 68: a block of zeros moves the offset, any other block is written.
pub copy_block : ℕ → Text → M (Round (Unit {0}) (Reply (Unit {0})))
copy_block out_fd block =
    if all_zero block
    then (do
      or_fault "lseek failed!" (← call (lseek out_fd (pos (length block)) seek_cur))
      pure (next tt))
    else (do
      written ← call (write out_fd block (length block))
      if returned written (length block)
          then pure (next tt)
          else fault "Couldn't write whole buffer!")

pub on_read : ℕ → Reply Text → M (Round (Unit {0}) (Reply (Unit {0})))
on_read out_fd (fail e) = pure (leave (fail e))
on_read out_fd (ok []) = pure (leave (ok tt))
on_read out_fd (ok (b ∷ bs)) = copy_block out_fd (b ∷ bs)

pub copy_round : ℕ → ℕ → Unit {0} → M (Round (Unit {0}) (Reply (Unit {0})))
unfolding on_read
copy_round in_fd out_fd _ = do num_read ← call (read in_fd buf_size); on_read out_fd num_read

-- The result of the seek as an `off_t`.
offset_of : Reply ℕ → ℤ
offset_of (ok n) = pos n
offset_of (fail e) = negsuc 0

-- Lines 71 to 79: a failed read is reported, and the program goes on.
pub finish : ℕ → Reply (Unit {0}) → M ℕ
unfolding offset_of
finish out_fd last = do
  elim last [ ok _ ↦ pure tt | fail e ↦ call (perror "Read error!") ]
  len ← call (lseek out_fd (pos 0) seek_cur)
  call (ftruncate out_fd (offset_of len))
  pure 0

pub main : ℕ → List Text → M ℕ
unfolding finish
main fuel argv = if ltb (length argv) 3 then fault "Ussage Error." else do
  source ← arg argv 1
  target ← arg argv 2
  in_fd ← or_fault "Open source file failed!" (← call (open_file source (o_rdonly ∷ []) 0))
  out_fd ←
      or_fault "Open dst file failed!" (← call (open_file target (o_wronly ∷ o_creat ∷ []) 0o660))
  last ← loop fuel (copy_round in_fd out_fd) tt
  finish out_fd last
