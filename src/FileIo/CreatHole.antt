-- ===== src/FileIo/CreatHole.antt =====
-- TLPI/chapter4/creat_hole_file.c: two pieces of data with a hole of 16384 bytes between them.
mod Examples
use linux_unix_system_progra.Prelude.{
  ℕ, ◌+◌, String, ◌≡◌, [], ◌∷◌, ◌++◌, Text, codes, if◌then◌else◌, length, replicate, pos, arith,
  ==-refl, ap, sym, subst, ◌∙◌, refl,
}
use linux_unix_system_progra.Sys.{
  ok, fail, o_wronly, o_creat, o_trunc, seek_cur, perror, open_file, write, lseek, M, ◌>>=◌, ◌>>◌,
  pure, call, exit, returned, exited, halted, Kernel, Trace,
}
use linux_unix_system_progra.Sys.Files.{Opens}
use linux_unix_system_progra.Sys.Image.{
  image, fresh, Seekable, pad-add, pad_self, overwrite, overwrite-content,
}

-- `sizeof` counts the terminator, so each buffer is eleven bytes.
abbrev buf1 : Text
buf1 = codes "abcdefghij" ++ 0 ∷ []

abbrev buf2 : Text
buf2 = codes "ABCDEFGHIJ" ++ 0 ∷ []

abbrev fault : {A : Type 0} → String → M A
fault s = call (perror s) >> exit 1

-- The program with the size of the hole. creat(path, mode) is open with these flags.
pub create : ℕ → M (Unit {0})
create hole = do
  created ← call (open_file (codes "file.hole") (o_creat ∷ o_wronly ∷ o_trunc ∷ []) 0o660)
  fd ← elim created [ ok fd ↦ pure fd | fail e ↦ fault "creat error" ]
  first ← call (write fd buf1 11)
  if returned first 11 then pure tt else fault "write buf1 error"
  moved ← call (lseek fd (pos hole) seek_cur)
  elim moved [ ok _ ↦ pure tt | fail e ↦ fault "seek buf1 error" ]
  second ← call (write fd buf2 11)
  if returned second 11 then pure tt else fault "write buf2 error"
  exit 0

main : M (Unit {0})
main = create 16384

-- Two pieces and a hole, in an image.
with_hole :
    (c d : Text) (hole : ℕ)
    → (overwrite (record { content = c; offset = length c + hole }) d).content
      ≡ (c ++ replicate hole 0) ++ d
with_hole c d hole =
    overwrite-content (length c + hole) c (omega arith) d
    ∙ ap (λ s. s ++ d)
        (pad-add (length c) c (omega arith) hole ∙ ap (λ s. s ++ replicate hole 0) (pad_self c))

module _ (k : Kernel) (fd hole : ℕ) (seekable : Seekable k fd)
    (made : Opens k (codes "file.hole") (o_creat ∷ o_wronly ∷ o_trunc ∷ []) 0o660 fd) where
  abbrev opened : Trace
  opened = (open_file (codes "file.hole") (o_creat ∷ o_wronly ∷ o_trunc ∷ []) 0o660, ok fd) ∷ []

  abbrev ended : Trace
  ended =
      (write fd buf2 11, ok 11)
      ∷ (lseek fd (pos hole) seek_cur, ok (11 + hole))
      ∷ (write fd buf1 11, ok 11)
      ∷ opened

  first_offset : (image fd fresh ((write fd buf1 11, ok 11) ∷ opened)).offset ≡ 11
  unfolding image overwrite
  first_offset = rw (==-refl fd) refl

  create_run : (u : Trace) → create hole k [] ≡ halted (exited 0) u → u ≡ ended
  unfolding create
  create_run u h =
      let two : Trace = (write fd buf1 11, ok 11) ∷ opened in
      ground (arith, made.open_ok [], seekable.seek_ok two hole, first_offset)

  -- If the file is new, seeks work and creat_hole_file.c exits with status 0, then the file holds
  -- the first buffer, a hole of the size of the seek that reads as zeros, and the second buffer.
  pub create-content :
      (u : Trace)
      → create hole k [] ≡ halted (exited 0) u
      → (image fd fresh u).content ≡ (buf1 ++ replicate hole 0) ++ buf2
  unfolding image overwrite
  create-content u h =
      subst (λ v. (image fd fresh v).content ≡ (buf1 ++ replicate hole 0) ++ buf2)
        (sym (create_run u h)) (rw (==-refl fd) (with_hole buf1 buf2 hole))
