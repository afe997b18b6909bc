-- ===== src/FileIo/CpHole/Content.antt =====
-- The copy that cp_hole.c leaves has the content of the source, holes included.
use linux_unix_system_progra.Prelude.{
  ℕ, ◌+◌, ◌≤◌, ◌≡◌, refl, ap, subst, sym, ◌∙◌, true, [], ◌∷◌, ◌++◌, Text, arith, take-length,
  append-nil, ==-refl, length, length-append, replicate, all_zero, take_all, pos, ◌⊎◌, inl, inr,
}
use linux_unix_system_progra.Sys.{
  Reply, ok, fail, Trace, Kernel, perror, done, transfer, Round, next, Held, loop, loop_done,
  and_then, and_then_done, open_file, read, write, lseek, ftruncate, seek_cur, o_rdonly, o_wronly,
  o_creat,
}
use linux_unix_system_progra.Sys.View.{received, received-read}
use linux_unix_system_progra.Sys.Files.{Opens}
use linux_unix_system_progra.Sys.Image.{
  Image, image, fresh, Seekable, pad, overwrite, length-pad, pad-add, overwrite-content, pad_self,
}
use linux_unix_system_progra.FileIo.CpHole.{copy_block, on_read, copy_round, finish, main, buf_size}

-- A block of zeros is a block of zeros.
all_zero→replicate : (bs : Text) → all_zero bs ≡ true → bs ≡ replicate (length bs) 0
unfolding all_zero
all_zero→replicate [] h = refl
all_zero→replicate (b ∷ bs) h = ground (arith, all_zero→replicate bs)

module _ (i o : ℕ) (k : Kernel) (seekable : Seekable k o) where
  -- What was written, with the pending hole, is what was read.
  record Mirrors (s : Unit {0}) (t : Trace) : Type 0 where
    reached : (image o fresh t).offset ≡ length (received i t)
    within : length (image o fresh t).content ≤ (image o fresh t).offset
    same : pad (image o fresh t).offset (image o fresh t).content ≡ received i t

  abbrev Mirrored : Reply (Unit {0}) → Trace → Type 0
  Mirrored r t = Mirrors tt t

  module _ (t u : Trace) (c : Mirrors tt t) (bs : Text)
      (grown : received i u ≡ received i t ++ bs) where
    abbrev before : Image
    before = image o fresh t

    longer : length (received i u) ≡ before.offset + length bs
    longer = omega (arith, ap (λ s. length s) grown, length-append (received i t) bs, c.reached)

    hole :
        image o fresh u ≡ record { content = before.content; offset = before.offset + length bs }
        → bs ≡ replicate (length bs) 0
        → Mirrors tt u
    hole e z = record {
      reached = ap (λ (f : Image). f.offset) e ∙ sym longer;
      within = rw e (omega (arith, c.within));
      same =
          ap (λ (f : Image). pad f.offset f.content) e
          ∙ pad-add before.offset before.content c.within (length bs)
          ∙ ap (λ s. s ++ replicate (length bs) 0) c.same
          ∙ ap (λ s. received i t ++ s) (sym z)
          ∙ sym grown;
    }

    written : image o fresh u ≡ overwrite before bs → Mirrors tt u
    unfolding overwrite
    written e =
        let body : (image o fresh u).content ≡ received i u =
          ap (λ (f : Image). f.content) e
          ∙ overwrite-content before.offset before.content c.within bs
          ∙ ap (λ s. s ++ bs) c.same
          ∙ sym grown in
        let there : (image o fresh u).offset ≡ length (received i u) =
          ap (λ (f : Image). f.offset) e ∙ sym longer in
        record {
          reached = there;
          within = omega (arith, ap (λ s. length s) body, there);
          same =
              ap (λ n. pad n (image o fresh u).content) (there ∙ ap (λ s. length s) (sym body))
              ∙ pad_self (image o fresh u).content
              ∙ body;
        }

  Mirrors-eq :
      (t u : Trace)
      → Mirrors tt t
      → image o fresh u ≡ image o fresh t
      → received i u ≡ received i t
      → Mirrors tt u
  Mirrors-eq t u c e f = record {
    reached = ap (λ (g : Image). g.offset) e ∙ c.reached ∙ ap (λ s. length s) (sym f);
    within = rw e c.within;
    same = ap (λ (g : Image). pad g.offset g.content) e ∙ c.same ∙ sym f;
  }

  block_cases :
      (t u : Trace) (r : Round (Unit {0}) (Reply (Unit {0}))) (bs : Text)
      → copy_block o bs k t ≡ done r u
      → (r ≡ next tt)
        × ((all_zero bs ≡ true)
              × (u
                  ≡ (lseek o (pos (length bs)) seek_cur, ok ((image o fresh t).offset + length bs))
                    ∷ t)
            ⊎ (u ≡ (write o bs (length bs), ok (length bs)) ∷ t))
  unfolding copy_block
  block_cases t u r bs h = ground (arith, seekable.seek_ok t (length bs))

  on_read-Held :
      (x : Reply Text) (t u : Trace) (r : Round (Unit {0}) (Reply (Unit {0})))
      → Mirrors tt t
      → on_read o x k ((read i buf_size, x) ∷ t) ≡ done r u
      → Held Mirrors Mirrored r u
  unfolding on_read received image
  on_read-Held (fail e) t u r c h =
      transfer (Held Mirrors Mirrored) h (Mirrors-eq t ((read i buf_size, fail e) ∷ t) c refl refl)
  on_read-Held (ok []) t u r c h = transfer (Held Mirrors Mirrored) h (
      Mirrors-eq t ((read i buf_size, ok []) ∷ t) c refl
        (received-read i [] t buf_size ∙ append-nil (received i t)))
  on_read-Held (ok (b ∷ bs)) t u r c h =
      let v : Trace = (read i buf_size, ok (b ∷ bs)) ∷ t in
      let grown : received i v ≡ received i t ++ b ∷ bs = received-read i (b ∷ bs) t buf_size in
      let (e, cases) = block_cases v u r (b ∷ bs) h in
      subst (λ r'. Held Mirrors Mirrored r' u) (sym e)
        (elim cases [
          | inl (zeros, eu) ↦
              subst (Mirrors tt) (sym eu)
                (hole t _ c (b ∷ bs) grown (rw ==-refl) (all_zero→replicate (b ∷ bs) zeros))
          | inr eu ↦
              subst (Mirrors tt) (sym eu) (written t _ c (b ∷ bs) grown (rw (==-refl, take-length)))
        ])

  copy_round-Held :
      (s : Unit {0}) (t u : Trace) (r : Round (Unit {0}) (Reply (Unit {0})))
      → Mirrors s t
      → copy_round i o s k t ≡ done r u
      → Held Mirrors Mirrored r u
  unfolding copy_round
  copy_round-Held s t u r c h = on_read-Held (k t (read i buf_size)) t u r c h

  -- The seek that asks for the offset and the truncation make a trailing hole part of the file.
  truncated :
      (v : Trace)
      → Mirrors tt v
      → (image o fresh (
          (ftruncate o (pos ((image o fresh v).offset + 0)), ok tt)
          ∷ (lseek o (pos 0) seek_cur, ok ((image o fresh v).offset + 0))
          ∷ v)).content
        ≡ received i v
  unfolding image
  truncated v c =
      let f : Image = image o fresh v in
      let zero_more : f.offset + 0 ≡ f.offset = omega arith in
      rw (==-refl, zero_more)
        (take_all f.offset (pad f.offset f.content)
            (omega (arith, length-pad f.offset f.content c.within))
          ∙ c.same)

  abbrev sought : Trace → Trace
  sought v = (lseek o (pos 0) seek_cur, ok ((image o fresh v).offset + 0)) ∷ v

  abbrev cut : Trace → Trace
  cut v = (ftruncate o (pos ((image o fresh v).offset + 0)), ok tt) ∷ sought v

  finish_cases :
      (last : Reply (Unit {0})) (n : ℕ) (t u : Trace)
      → finish o last k t ≡ done n u
      → (n ≡ 0) × ((u ≡ cut t) ⊎ (u ≡ cut ((perror "Read error!", tt) ∷ t)))
  unfolding finish image
  finish_cases (ok x) n t u h =
      ground (
        arith,
        seekable.seek_ok t 0,
        seekable.truncate_ok (sought t) ((image o fresh t).offset + 0),
      )
  finish_cases (fail e) n t u h = ground (
    arith,
    seekable.seek_ok ((perror "Read error!", tt) ∷ t) 0,
    seekable.truncate_ok (sought ((perror "Read error!", tt) ∷ t)) ((image o fresh t).offset + 0),
  )

  finish-content :
      (last : Reply (Unit {0})) (n : ℕ) (t u : Trace)
      → Mirrors tt t
      → finish o last k t ≡ done n u
      → (n ≡ 0) × ((image o fresh u).content ≡ received i u)
  unfolding image received
  finish-content last n t u c h =
      let (z, cases) = finish_cases last n t u h in
      (
        z,
        elim cases [
          | inl e ↦ subst Copy (sym e) (truncated t c)
          | inr e ↦
              subst Copy (sym e)
                (truncated _ (Mirrors-eq t ((perror "Read error!", tt) ∷ t) c refl refl))
        ],
      )
    where
      Copy : Trace → Type 0
      Copy v = (image o fresh v).content ≡ received i v

module _ (k : Kernel) (p a b : Text) (i o : ℕ) (source : Opens k a (o_rdonly ∷ []) 0 i)
    (target : Opens k b (o_wronly ∷ o_creat ∷ []) 0o660 o) where
  abbrev opened : Trace
  opened =
      (open_file b (o_wronly ∷ o_creat ∷ []) 0o660, ok o)
      ∷ (open_file a (o_rdonly ∷ []) 0, ok i)
      ∷ []

  opened-Mirrors : (seekable : Seekable k o) → Mirrors i o k seekable tt opened
  unfolding image received pad
  opened-Mirrors seekable = record { reached = refl; within = omega arith; same = refl }

  -- If both files open, the new file was empty, and seeks and truncations work, then whenever
  -- cp_hole.c returns, it returns 0, and the new file has exactly the bytes that were read, holes as
  -- zeros.
  pub main-image :
      (fuel n : ℕ) (u : Trace)
      → Seekable k o
      → main fuel (p ∷ a ∷ b ∷ []) k [] ≡ done n u
      → (n ≡ 0) × ((image o fresh u).content ≡ received i u)
  unfolding main
  main-image fuel n u seekable h =
      let m : Unit {0} → Trace → Type 0 = Mirrors i o k seekable in
      let h' : and_then (loop fuel (copy_round i o) tt k opened) (λ last. finish o last) k
          ≡ done n u =
        simp (source.open_ok, target.open_ok) at h in
      let (r, v, e, f) =
        and_then_done (loop fuel (copy_round i o) tt k opened) (λ l. finish o l) k h' in
      finish-content i o k seekable r n v u
        (loop_done (copy_round i o) k m (λ _. m tt) (copy_round-Held i o k seekable) fuel tt opened
          v r (opened-Mirrors seekable) e)
        f
