-- ===== src/FileIo/Overwrite/Front.antt =====
-- What is in the file after the write.
use linux_unix_system_progra.Prelude.{
  some, ℕ, ◌≡◌, refl, ◌++◌, pos, ◌∷◌, Text, take, arith, ==-refl, take_all, length-take, ap, ◌∙◌,
}
use linux_unix_system_progra.Sys.{
  Trace, Kernel, exited, halted, Reply, ok, fail, lseek, write, close, seek_set, or_die, call, exit,
  ◌>>=◌, M,
}
use linux_unix_system_progra.Sys.Image.{Image, image, overwrite}
use linux_unix_system_progra.FileIo.Overwrite.{put}

-- A seek to the start goes there, and a write takes all or fails.
pub record FromStart (k : Kernel) (fd : ℕ) : Type 0 where
  pub seek_ok : (t : Trace) (p : ℕ) → k t (lseek fd (pos 0) seek_set) ≡ ok p → p ≡ 0
  pub whole : (t : Trace) (bs : Text) (n m : ℕ) → k t (write fd bs n) ≡ ok m → m ≡ n

module _ (k : Kernel) (fd : ℕ) (f : Image) (from : FromStart k fd) (bs : Text) where
  abbrev close_file : M (Unit {0})
  close_file = (call (close fd) >>= or_die "close erro.\n" 1) >>= λ _. exit 0

  written :
      (t u : Trace) (p : ℕ) (y : Reply ℕ)
      → p ≡ 0
      → k ((lseek fd (pos 0) seek_set, ok p) ∷ t) (write fd bs 8) ≡ y
      → (or_die "write erro.\n" 1 y >>= λ _. close_file) k
          ((write fd bs 8, y) ∷ (lseek fd (pos 0) seek_set, ok p) ∷ t)
        ≡ halted (exited 0) u
      → image fd f u
        ≡ overwrite (record { content = (image fd f t).content; offset = 0 }) (take 8 bs)
  unfolding image
  written t u p (fail e) place eq h = ground arith
  written t u p (ok m) place eq h =
      let eight = from.whole ((lseek fd (pos 0) seek_set, ok p) ∷ t) bs 8 m eq in
      ground (arith, eight, place, ==-refl fd)

  sought :
      (t u : Trace) (x : Reply ℕ)
      → k t (lseek fd (pos 0) seek_set) ≡ x
      → (or_die "lseek erro.\n" 1 x >>= λ _.
            (call (write fd bs 8) >>= or_die "write erro.\n" 1) >>= λ _. close_file)
          k
          ((lseek fd (pos 0) seek_set, x) ∷ t)
        ≡ halted (exited 0) u
      → image fd f u
        ≡ overwrite (record { content = (image fd f t).content; offset = 0 }) (take 8 bs)
  unfolding image
  sought t u (fail e) eq h = ground arith
  sought t u (ok p) eq h =
      written t u p (k ((lseek fd (pos 0) seek_set, ok p) ∷ t) (write fd bs 8))
        (from.seek_ok t p eq) refl h

-- If a seek to the start goes there and a write takes all bytes or fails, then when file_append_5.2.c
-- ends with status 0 after it opened the file, the first eight bytes of the text with its terminator
-- and what lies behind it have replaced the front of the file.
pub put-image :
    (k : Kernel) (fd : ℕ) (f : Image) (behind text : Text) (t u : Trace)
    → FromStart k fd
    → put fd behind (some text) k t ≡ halted (exited 0) u
    → image fd f u
      ≡ overwrite
          (record { content = (image fd f t).content; offset = 0 })
          (take 8 (text ++ (0 ∷ behind)))
unfolding put
put-image k fd f behind text t u from h =
    let bs = take 8 (text ++ (0 ∷ behind)) in
    sought k fd f from bs t u (k t (lseek fd (pos 0) seek_set)) refl h
    ∙ ap (overwrite (record { content = (image fd f t).content; offset = 0 }))
        (take_all 8 bs (omega (arith, length-take 8 (text ++ (0 ∷ behind)))))
