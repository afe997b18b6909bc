-- ===== src/ShmTransfer/Transfer.antt =====
-- The writer and the reader together: from the standard input of one to the standard output of the
-- other.
mod Examples
use linux_unix_system_progra.Prelude.{
  ℕ, zero, suc, ◌≡◌, ◌≢◌, refl, ap, sym, subst, ◌∙◌, List, [], ◌∷◌, ◌++◌, Text, length, arith,
  append_assoc, append-nil,
}
use linux_unix_system_progra.Sys.{semget, shmat, ok, Trace, Kernel, exited, halted}
use linux_unix_system_progra.Sys.View.{received, sent, stored, stored_blocks}
use linux_unix_system_progra.ShmTransfer.Keys.{sem_key, obj_perms}
use linux_unix_system_progra.ShmTransfer.Writer
use linux_unix_system_progra.ShmTransfer.Writer.Blocks.{OwnCount, main-stored}
use linux_unix_system_progra.ShmTransfer.Writer.Turns.{
  joined_all, Full, Complete, main-EndsEmpty, joined_all-stored,
}
use linux_unix_system_progra.ShmTransfer.Reader
use linux_unix_system_progra.ShmTransfer.Reader.Blocks.{
  TakesTurns, joined, AllFull, Output, main-joined,
}

-- The block with this number; past the end the segment holds nothing.
pub nth_block : List Text → ℕ → Text
nth_block [] n = []
nth_block (b ∷ l) zero = b
nth_block (b ∷ l) (suc n) = nth_block l n

first_full : (block : ℕ → Text) (n : ℕ) → AllFull block (suc n) → length (block 0) ≢ 0
first_full block zero (_, f) = f
first_full block (suc n) (f, _) = first_full block n f

module _ (b : Text) (l : List Text) where
  joined-tail : (n : ℕ) → joined (nth_block (b ∷ l)) (suc n) ≡ b ++ joined (nth_block l) n
  unfolding joined nth_block
  joined-tail zero = sym (append-nil b)
  joined-tail (suc n) =
      ap (λ s. s ++ nth_block l n) (joined-tail n)
      ∙ append_assoc b (joined (nth_block l) n) (nth_block l n)

  full-tail : (n : ℕ) → AllFull (nth_block (b ∷ l)) (suc n) → AllFull (nth_block l) n
  unfolding nth_block
  full-tail zero f = tt
  full-tail (suc n) (f, g) = (full-tail n f, g)

-- The blocks before the first empty one are all blocks of a complete list.
joined_complete :
    (full : List Text) (n : ℕ)
    → Full full
    → AllFull (nth_block (full ++ [] ∷ [])) n
    → length (nth_block (full ++ [] ∷ []) n) ≡ 0
    → joined (nth_block (full ++ [] ∷ [])) n ≡ joined_all (full ++ [] ∷ [])
unfolding joined joined_all nth_block
joined_complete [] zero f all e = refl
joined_complete [] (suc n) f all e = absurd (first_full (nth_block ([] ∷ [])) n all refl)
joined_complete (b ∷ full) zero (nonempty, f) all e = absurd (nonempty e)
joined_complete (b ∷ full) (suc n) (nonempty, f) all e =
    joined-tail b (full ++ [] ∷ []) n
    ∙ ap (λ s. b ++ s) (joined_complete full n f (full-tail b (full ++ [] ∷ []) n all) e)

Complete-Output :
    (l : List Text) (n : ℕ) (v : Trace)
    → Complete l
    → Output (nth_block l) n v
    → length (nth_block l n) ≡ 0
    → sent 1 v ≡ joined_all l
Complete-Output l n v (full, e, f) (out, all) empty =
    out
    ∙ subst
        (λ l.
          AllFull (nth_block l) n
          → length (nth_block l n) ≡ 0
          → joined (nth_block l) n ≡ joined_all l)
        (sym e) (joined_complete full n f) all empty

-- If only the writer stores the count of its segment and it exits with status 0, the blocks that it
-- stored take turns with the reader in their order, and the reader exits with status 0, then the
-- standard output of the reader has taken exactly the bytes of the standard input of the writer.
pub main-main :
    (k k' : Kernel) (seg semid seg' fuel fuel' : ℕ) (u v : Trace)
    → ((t : Trace) (id : ℕ) → k t (shmat id) ≡ ok seg)
    → OwnCount k seg
    → Writer.main fuel k [] ≡ halted (exited 0) u
    → ((t : Trace) → k' t (semget sem_key [] obj_perms) ≡ ok semid)
    → ((t : Trace) (id : ℕ) → k' t (shmat id) ≡ ok seg')
    → TakesTurns k' semid seg' (nth_block (stored_blocks seg u))
    → Reader.main fuel' k' [] ≡ halted (exited 0) v
    → sent 1 v ≡ received 0 u
main-main k k' seg semid seg' fuel fuel' u v attached own h sems attached' turns h' =
    let (xfrs, same, _) = main-stored k seg fuel u attached own h in
    let (n, out, empty) =
      main-joined k' semid seg' fuel' (nth_block (stored_blocks seg u)) v sems attached' turns h' in
    Complete-Output (stored_blocks seg u) n v (main-EndsEmpty k seg fuel u attached own h) out empty
    ∙ joined_all-stored seg u
    ∙ same
