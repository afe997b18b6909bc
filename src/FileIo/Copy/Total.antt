-- ===== src/FileIo/Copy/Total.antt =====
-- copy.c ends, with the whole source in the new file.
use linux_unix_system_progra.Prelude.{
  ℕ, ◌-◌, ◌<◌, ◌≡◌, refl, false, [], ◌∷◌, ◌++◌, Text, arith, length, text_eq, codes, ap, sym, ◌∙◌,
}
use linux_unix_system_progra.Sys.{
  open_file, Reply, ok, Trace, Kernel, done, Round, next, leave, Held, Shorter, loop_total, printf,
  read, write, close, o_rdonly, o_wronly, o_creat, o_trunc,
}
use linux_unix_system_progra.Sys.View.{received, sent, received-read, sent-write}
use linux_unix_system_progra.Sys.Files.{
  Feeds, Accepts, Closes, Opens, IsFed, NextRead, at_end, piece, read_cases, IsFed-piece,
  left-piece, IsFed-start,
}
use linux_unix_system_progra.FileIo.Copy.{
  copy_round, copy_loop, open_files, check_args, main, buf_size, file_perms,
}

module _ (i o : ℕ) {k : Kernel} {src : Text} (feeds : Feeds k i src) (accepts : Accepts k o) where
  record Copied (s : Unit {0}) (t : Trace) : Type 0 where
    fed : IsFed i src t
    balanced : sent o t ≡ received i t

  abbrev Whole : Reply (Unit {0}) → Trace → Type 0
  Whole r t = (r ≡ ok tt) × (sent o t ≡ src)

  abbrev left : Unit {0} → Trace → ℕ
  left s t = length src - length (received i t)

  abbrev Progress : Unit {0} → Trace → Type 0
  Progress s t =
      (r : Round (Unit {0}) (Reply (Unit {0}))) × (u : Trace) × (copy_round i o s k t ≡ done r u)
      × Held Copied Whole r u
      × Shorter left (left s t) r u

  next_round : (s : Unit {0}) (t : Trace) → Copied s t → NextRead k i buf_size src t → Progress s t
  unfolding copy_round sent received
  next_round s t c (at_end e f) =
      (leave (ok tt), (read i buf_size, ok []) ∷ t, rw e, (refl, c.balanced ∙ f), tt)
  next_round s t c (piece b bs e front short le) =
      let grown = received-read i (b ∷ bs) t buf_size in
      let n = length (b ∷ bs) in
      let e' = accepts.write_ok ((read i buf_size, ok (b ∷ bs)) ∷ t) (b ∷ bs) in
      (
        next tt,
        (write o (b ∷ bs) n, ok n) ∷ (read i buf_size, ok (b ∷ bs)) ∷ t,
        ground (arith, e, e'),
        record {
          fed = IsFed-piece i src t _ b bs grown short front;
          balanced =
              sent-write o (b ∷ bs) ((read i buf_size, ok (b ∷ bs)) ∷ t)
              ∙ ap (λ s. s ++ b ∷ bs) c.balanced
              ∙ sym grown;
        },
        left-piece i src t ((read i buf_size, ok (b ∷ bs)) ∷ t) b bs grown short,
      )

  pub copy_loop_total :
      (n : ℕ) (t : Trace)
      → length src < n
      → sent o t ≡ []
      → received i t ≡ []
      → (r : Reply (Unit {0})) × (u : Trace) × (copy_loop n i o k t ≡ done r u) × Whole r u
  unfolding copy_loop
  copy_loop_total n t lt hs hr =
      loop_total (copy_round i o) k Copied Whole left
        (λ s t c. next_round s t c (read_cases feeds buf_size (omega arith) c.fed)) n tt t
        (omega arith) (record { fed = IsFed-start src hr; balanced = hs ∙ sym hr })

module _ (k : Kernel) (p a b : Text) (i o : ℕ) (not_help : text_eq a (codes "--help") ≡ false)
    (old_file : Opens k a (o_rdonly ∷ []) 0 i)
    (new_file : Opens k b (o_creat ∷ o_wronly ∷ o_trunc ∷ []) file_perms o) where
  abbrev started : Trace
  started =
      (open_file b (o_creat ∷ o_wronly ∷ o_trunc ∷ []) file_perms, ok o)
      ∷ (open_file a (o_rdonly ∷ []) 0, ok i)
      ∷ (printf "\nstart\n" [], tt)
      ∷ []

  open_files-ok :
      (t : Trace)
      → open_files (p ∷ a ∷ b ∷ []) k t
        ≡ done
            (i, o)
            ((open_file b (o_creat ∷ o_wronly ∷ o_trunc ∷ []) file_perms, ok o)
              ∷ (open_file a (o_rdonly ∷ []) 0, ok i)
              ∷ t)
  unfolding open_files
  open_files-ok t = rw (old_file.open_ok t, new_file.open_ok _)

  check_args-ok : (t : Trace) → check_args (p ∷ a ∷ b ∷ []) k t ≡ done tt t
  unfolding check_args
  check_args-ok t = rw not_help

  -- If both files open, the source is not named --help, reads deliver the source, writes are
  -- complete, and the two calls of close succeed, then copy.c returns 0 in fewer rounds than the
  -- fuel, which is more than the bytes of the source, and what it wrote to the new file is the whole
  -- old file, however the kernel cuts it into reads.
  pub main_total :
      (src : Text) (fuel : ℕ)
      → Feeds k i src
      → Accepts k o
      → Closes k i
      → Closes k 0
      → length src < fuel
      → (u : Trace) × (main fuel (p ∷ a ∷ b ∷ []) k [] ≡ done 0 u) × (sent o u ≡ src)
  unfolding main sent received
  main_total src fuel feeds accepts close_i close_0 lt =
      let (r, v, e, (re, se)) = copy_loop_total i o feeds accepts fuel started lt refl refl in
      (
        (printf "\nend\n" [], tt) ∷ (close 0, ok tt) ∷ (close i, ok tt) ∷ v,
        simp (
          not_help, old_file.open_ok, new_file.open_ok, e, re, close_i.close_ok, close_0.close_ok,
        ),
        se,
      )
