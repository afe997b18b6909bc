-- ===== src/PosixShm/Exchange.antt =====
-- One text from pshm_write.c to pshm_read.c.
use linux_unix_system_progra.Prelude.{
  ℕ, ◌≡◌, ◌++◌, pos, [], ◌∷◌, Text, take, codes, ◌==◌, if◌then◌else◌,
}
use linux_unix_system_progra.Sys.{
  Trace, Kernel, ok, fstat_size, ftruncate, load_map, store_map, write, printf,
}

-- The size that the object got last, and the bytes that were stored at its front last.
unfoldable pub last_size : Trace → ℕ
last_size [] = 0
last_size ((ftruncate _ (pos n), ok _) ∷ t) = n
last_size (_ ∷ t) = last_size t

unfoldable pub last_stored : Trace → Text
last_stored [] = []
last_stored ((store_map _ bs, _) ∷ t) = bs
last_stored (_ ∷ t) = last_stored t

-- What went to standard output, by write and by printf of a text without arguments.
unfoldable pub output : Trace → Text
output [] = []
output ((write fd bs n, ok m) ∷ t) = if fd == 1 then output t ++ take m (take n bs) else output t
output ((printf s [], _) ∷ t) = output t ++ codes s
output (_ ∷ t) = output t

-- An object that has this content, as the process sees it that reads it.
pub record Holds (k : Kernel) (size : ℕ) (content : Text) : Type 0 where
  pub stat_ok : (t : Trace) (fd : ℕ) → k t (fstat_size fd) ≡ ok size
  pub load_ok : (t : Trace) (addr n : ℕ) → k t (load_map addr n) ≡ take n content
