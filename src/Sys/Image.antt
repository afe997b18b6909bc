-- ===== src/Sys/Image.antt =====
-- The content of a file that one descriptor writes: POSIX `write`, `lseek` past the end and
-- `ftruncate`, where bytes that were never written read as zero.
use linux_unix_system_progra.Prelude.{
  ℕ, ◌+◌, ◌-◌, ◌≤◌, ◌≡◌, ap, sym, ◌∙◌, [], ◌∷◌, ◌++◌, Text, ◌==◌, if◌then◌else◌, take, drop, length,
  replicate, arith, pos, append_assoc, append-nil, replicate-add, take_all, drop_all, length-append,
  length-replicate,
}
use linux_unix_system_progra.Sys.Calls.{ok, write, lseek, ftruncate, seek_cur}
use linux_unix_system_progra.Sys.Run.{Trace, Kernel}

pub record Image : Type 0 where
  pub content : Text
  pub offset : ℕ

abbrev pub fresh : Image
fresh = record { content = []; offset = 0 }

-- The content, with zeros up to `n`.
unfoldable pub pad : ℕ → Text → Text
pad n c = c ++ replicate (n - length c) 0

unfoldable pub overwrite : Image → Text → Image
unfolding pad
overwrite f bs = record {
  content = take f.offset (pad f.offset f.content) ++ (bs ++ drop (f.offset + length bs) f.content);
  offset = f.offset + length bs;
}

-- The file behind `fd`, which started as `f`. A seek reports the new offset.
unfoldable pub image : ℕ → Image → Trace → Image
unfolding pad overwrite
image fd f [] = f
image fd f ((write g bs n, ok m) ∷ t) =
    let before = image fd f t in if g == fd then overwrite before (take m bs) else before
image fd f ((lseek g n w, ok p) ∷ t) =
    let before = image fd f t in if g == fd then record before { offset = p } else before
image fd f ((ftruncate g (pos n), ok _) ∷ t) =
    let before = image fd f t in
    if g == fd then record before { content = take n (pad n before.content) } else before
image fd f (_ ∷ t) = image fd f t

-- A relative seek moves the offset, and a truncation succeeds.
pub record Seekable (k : Kernel) (fd : ℕ) : Type 0 where
  pub seek_ok :
      (t : Trace) (n : ℕ) → k t (lseek fd (pos n) seek_cur) ≡ ok ((image fd fresh t).offset + n)
  pub truncate_ok : (t : Trace) (n : ℕ) → k t (ftruncate fd (pos n)) ≡ ok tt

module _ (n : ℕ) (c : Text) (fits : length c ≤ n) where
  pub length-pad : length (pad n c) ≡ n
  unfolding pad
  length-pad = omega (
    arith,
    length-append c (replicate (n - length c) 0),
    length-replicate {A = ℕ} (n - length c) 0,
    fits,
  )

  -- A hole of `m` bytes reads as `m` zeros.
  pub pad-add : (m : ℕ) → pad (n + m) c ≡ pad n c ++ replicate m 0
  unfolding pad
  pad-add m =
      ap (λ k. c ++ replicate k 0) (let e : n + m - length c ≡ n - length c + m = omega arith in e)
      ∙ ap (λ s. c ++ s) (replicate-add (n - length c) m 0)
      ∙ sym (append_assoc c (replicate (n - length c) 0) (replicate m 0))

  -- A write at or past the end appends to the padded content.
  pub overwrite-content :
      (bs : Text) → (overwrite (record { content = c; offset = n }) bs).content ≡ pad n c ++ bs
  unfolding overwrite pad
  overwrite-content bs =
      ap (λ s. s ++ (bs ++ drop (n + length bs) c))
        (take_all n (pad n c) (omega (arith, length-pad)))
      ∙ ap (λ s. pad n c ++ (bs ++ s)) (drop_all (n + length bs) c (omega (arith, fits)))
      ∙ ap (λ s. pad n c ++ s) (append-nil bs)

pub pad_self : (c : Text) → pad (length c) c ≡ c
unfolding pad
pad_self c =
    ap (λ k. c ++ replicate k 0) (let e : length c - length c ≡ 0 = omega arith in e) ∙ append-nil c
