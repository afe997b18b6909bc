-- ===== src/Sys/Files.antt =====
-- What the programs rely on in the descriptors that they read and write.
use linux_unix_system_progra.Prelude.{
  ℕ, ◌+◌, ◌-◌, ◌≤◌, ◌<◌, ◌≡◌, refl, ap, ap₂, sym, ◌∙◌, [], Text, length, take, drop, arith,
  take-drop_step, length-take, take_all, take-length-take, length-drop, ◌∷◌, List, ◌++◌,
  length-append,
}
use linux_unix_system_progra.Sys.Calls.{OpenFlag, ok, open_file, read, write, close}
use linux_unix_system_progra.Sys.Run.{Trace, Kernel}
use linux_unix_system_progra.Sys.View.{received}

-- `fd` delivers `src` from the front: a read returns at most the bytes asked for, and no byte only
-- at the end (or where no byte was asked for). How many bytes it returns is up to the kernel.
pub record Feeds (k : Kernel) (fd : ℕ) (src : Text) : Type 0 where
  pub count : Trace → ℕ → ℕ
  pub count_le : (t : Trace) (n : ℕ) → count t n ≤ n
  pub count_pos : (t : Trace) (n : ℕ) → 0 < n → 0 < count t n
  pub read_ok :
      (t : Trace) (n : ℕ)
      → k t (read fd n) ≡ ok (take (count t n) (drop (length (received fd t)) src))

-- Every write on `fd` is complete.
pub record Accepts (k : Kernel) (fd : ℕ) : Type 0 where
  pub write_ok : (t : Trace) (bs : Text) → k t (write fd bs (length bs)) ≡ ok (length bs)

pub record Closes (k : Kernel) (fd : ℕ) : Type 0 where
  pub close_ok : (t : Trace) → k t (close fd) ≡ ok tt

-- `open` on this path with these flags and permissions yields `fd`.
pub record Opens (k : Kernel) (path : Text) (flags : List OpenFlag) (perms fd : ℕ) : Type 0 where
  pub open_ok : (t : Trace) → k t (open_file path flags perms) ≡ ok fd

-- What was read so far is the front of the source.
pub record IsFed (fd : ℕ) (src : Text) (t : Trace) : Type 0 where
  pub front : received fd t ≡ take (length (received fd t)) src
  pub short : length (received fd t) ≤ length src

-- The next read is at the end of the source, or brings a piece that continues the front.
pub data NextRead (k : Kernel) (fd n : ℕ) (src : Text) (t : Trace) : Type 0 where
  at_end : k t (read fd n) ≡ ok [] → received fd t ≡ src → NextRead k fd n src t
  piece :
      (b : ℕ) (bs : Text)
      → k t (read fd n) ≡ ok (b ∷ bs)
      → received fd t ++ b ∷ bs ≡ take (length (received fd t ++ b ∷ bs)) src
      → length (received fd t ++ b ∷ bs) ≤ length src
      → length (b ∷ bs) ≤ n
      → NextRead k fd n src t

module _ {k : Kernel} {fd : ℕ} {src : Text} (feeds : Feeds k fd src) (n : ℕ) (pos_n : 0 < n) where
  -- The piece that a read brings, in terms of the source.
  joined :
      {t : Trace} (s : Text)
      → IsFed fd src t
      → take (feeds.count t n) (drop (length (received fd t)) src) ≡ s
      → received fd t ++ s ≡ take (length (received fd t) + feeds.count t n) src
  joined {t} s fed e =
      ap₂ ◌++◌ fed.front (sym e) ∙ take-drop_step (length (received fd t)) (feeds.count t n) src

  next_read :
      {t : Trace} (s : Text)
      → IsFed fd src t
      → take (feeds.count t n) (drop (length (received fd t)) src) ≡ s
      → NextRead k fd n src t
  next_read {t} [] fed e = at_end (feeds.read_ok t n ∙ ap ok e) (
      fed.front
      ∙ take_all (length (received fd t)) src (
          omega (
            arith,
            ap (λ s. length s) e,
            length-take (feeds.count t n) (drop (length (received fd t)) src),
            length-drop (length (received fd t)) src,
            feeds.count_pos t n pos_n,
          )))
  next_read {t} (b ∷ bs) fed e =
      let l = length (received fd t) + feeds.count t n in
      let j = joined (b ∷ bs) fed e in
      piece b bs (feeds.read_ok t n ∙ ap ok e)
        (j ∙ sym (take-length-take l src) ∙ ap (λ s. take (length s) src) (sym j))
        (omega (arith, ap (λ s. length s) j, length-take l src))
        (omega (
          arith,
          ap (λ s. length s) e,
          length-take (feeds.count t n) (drop (length (received fd t)) src),
          feeds.count_le t n,
        ))

  pub read_cases : {t : Trace} → IsFed fd src t → NextRead k fd n src t
  read_cases {t} fed =
      next_read (take (feeds.count t n) (drop (length (received fd t)) src)) fed refl

-- A trace in which one more piece was read.
module _ (fd : ℕ) (src : Text) (t u : Trace) (b : ℕ) (bs : Text)
    (grown : received fd u ≡ received fd t ++ b ∷ bs)
    (short : length (received fd t ++ b ∷ bs) ≤ length src) where
  pub IsFed-piece :
      received fd t ++ b ∷ bs ≡ take (length (received fd t ++ b ∷ bs)) src → IsFed fd src u
  IsFed-piece front = record {
    front = grown ∙ front ∙ ap (λ s. take (length s) src) (sym grown);
    short = omega (arith, short, ap (λ s. length s) grown);
  }

  pub left-piece : length src - length (received fd u) < length src - length (received fd t)
  left-piece =
      omega (arith, short, ap (λ s. length s) grown, length-append (received fd t) (b ∷ bs))

pub IsFed-start : {fd : ℕ} {t : Trace} (src : Text) → received fd t ≡ [] → IsFed fd src t
IsFed-start src h = record {
  front = h ∙ ap (λ s. take (length s) src) (sym h);
  short = omega (arith, ap (λ s. length s) h);
}
