-- ===== src/FileIo/LargeFile/Content.antt =====
-- What is in the file after the write.
use linux_unix_system_progra.Prelude.{ℕ, ◌≡◌, refl, pos, [], ◌∷◌, Text, codes, arith, ==-refl, atoi}
use linux_unix_system_progra.Sys.{
  Trace, Kernel, exited, halted, Reply, ok, fail, open_file, lseek, write, o_rdwr, o_creat,
  seek_set, or_die, call, exit, ◌>>=◌, M,
}
use linux_unix_system_progra.Sys.Image.{Image, image, overwrite}
use linux_unix_system_progra.FileIo.LargeFile.{file_perms, write_at}

-- Seeking from the start of the file reports the place that was asked for, and a write takes all or
-- fails.
pub record Plain (k : Kernel) (fd : ℕ) : Type 0 where
  pub seek_ok : (t : Trace) (n p : ℕ) → k t (lseek fd (pos n) seek_set) ≡ ok p → p ≡ n
  pub whole : (t : Trace) (bs : Text) (n m : ℕ) → k t (write fd bs n) ≡ ok m → m ≡ n

abbrev after_write : Reply ℕ → M (Unit {0})
after_write y = or_die "Erro: write.\n" 1 y >>= λ _. exit 0

module _ (k : Kernel) (fd n : ℕ) (f : Image) (plain : Plain k fd) where
  -- The file as the write leaves it, where it was as in `t`.
  abbrev Put : Trace → Trace → Type 0
  Put t u =
      image fd f u
      ≡ overwrite (record { content = (image fd f t).content; offset = n }) (codes "test")

  written :
      (t u : Trace) (p : ℕ) (y : Reply ℕ)
      → p ≡ n
      → k ((lseek fd (pos n) seek_set, ok p) ∷ t) (write fd (codes "test") 4) ≡ y
      → after_write y k ((write fd (codes "test") 4, y) ∷ (lseek fd (pos n) seek_set, ok p) ∷ t)
        ≡ halted (exited 0) u
      → Put t u
  unfolding image
  written t u p (fail e) place eq h = ground arith
  written t u p (ok m) place eq h =
      let four = plain.whole ((lseek fd (pos n) seek_set, ok p) ∷ t) (codes "test") 4 m eq in
      ground (arith, four, place, ==-refl fd)

  sought :
      (t u : Trace) (x : Reply ℕ)
      → k t (lseek fd (pos n) seek_set) ≡ x
      → (or_die "Erro: lseek.\n" 1 x >>= λ _. call (write fd (codes "test") 4) >>= after_write) k
          ((lseek fd (pos n) seek_set, x) ∷ t)
        ≡ halted (exited 0) u
      → Put t u
  unfolding image
  sought t u (fail e) eq h = ground arith
  sought t u (ok p) eq h =
      written t u p (k ((lseek fd (pos n) seek_set, ok p) ∷ t) (write fd (codes "test") 4))
        (plain.seek_ok t n p eq) refl h

-- If the file opens as `fd`, the offset reads as the number `n`, a seek from the start goes to the place
-- that was asked for and a write takes all bytes or fails, then after large_file_2.c ends with status 0
-- the file has `test` at `n`, zeros where it had ended before `n`, and is otherwise as before.
pub write_at-image :
    (path offset : Text) (k : Kernel) (fd n : ℕ) (f : Image) (t u : Trace)
    → k t (open_file path (o_rdwr ∷ o_creat ∷ []) file_perms) ≡ ok fd
    → Plain k fd
    → atoi offset ≡ pos n
    → write_at path offset k t ≡ halted (exited 0) u
    → image fd f u
      ≡ overwrite (record { content = (image fd f t).content; offset = n }) (codes "test")
unfolding write_at image
write_at-image path offset k fd n f t u opened plain number h =
    let t' : Trace = (open_file path (o_rdwr ∷ o_creat ∷ []) file_perms, ok fd) ∷ t in
    sought k fd n f plain t' u (k t' (lseek fd (pos n) seek_set)) refl
      (ground (arith, opened, number, h))
