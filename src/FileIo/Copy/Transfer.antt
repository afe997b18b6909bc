-- ===== src/FileIo/Copy/Transfer.antt =====
-- What copy.c transfers.
use linux_unix_system_progra.Prelude.{
  ℕ, ◌≡◌, refl, ◌≢◌, true, false, text_eq, codes, Bool-cases, inl, inr, some, [], ◌∷◌, Text, arith,
  take-length, append-nil, ==-refl,
}
use linux_unix_system_progra.Sys.{
  o_rdonly, o_wronly, o_creat, o_trunc, printf, open_file, Reply, ok, Trace, Kernel, done,
  and_then_done, Round, Held, loop_done,
}
use linux_unix_system_progra.Sys.View.{received, sent, last_read, closed}
use linux_unix_system_progra.Sys.Files.{Opens}
use linux_unix_system_progra.FileIo.Copy.{file_perms, copy_round, copy_loop, finish, main}

-- Everything that was read was written.
abbrev Balanced : ℕ → ℕ → Unit {0} → Trace → Type 0
Balanced i o _ t = sent o t ≡ received i t

abbrev Drained : ℕ → ℕ → Reply (Unit {0}) → Trace → Type 0
Drained i o r t = (sent o t ≡ received i t) × (r ≡ ok tt → last_read i t ≡ some (ok []))

copy_round-Held :
    (i o : ℕ) (k : Kernel) (s : Unit {0}) (t u : Trace) (r : Round (Unit {0}) (Reply (Unit {0})))
    → Balanced i o s t
    → copy_round i o s k t ≡ done r u
    → Held (Balanced i o) (Drained i o) r u
unfolding copy_round sent received last_read
copy_round-Held i o k s t u r inv h = grind (arith, take-length, append-nil, ==-refl)

copy_loop-Drained :
    (n i o : ℕ) (k : Kernel) (t u : Trace) (r : Reply (Unit {0}))
    → sent o t ≡ received i t
    → copy_loop n i o k t ≡ done r u
    → Drained i o r u
unfolding copy_loop
copy_loop-Drained n i o k t u r inv h =
    loop_done (copy_round i o) k (Balanced i o) (Drained i o) (copy_round-Held i o k) n tt t u r inv
      h

finish-Drained :
    (i o n : ℕ) (r : Reply (Unit {0})) (k : Kernel) (t u : Trace)
    → Drained i o r t
    → finish i o r k t ≡ done n u
    → (n ≡ 0) × (sent o u ≡ received i u) × (last_read i u ≡ some (ok []))
unfolding finish sent received last_read
finish-Drained i o n r k t u d h = ground arith

copy_round-closed :
    (i o fd : ℕ) (k : Kernel) (s : Unit {0}) (t u : Trace) (r : Round (Unit {0}) (Reply (Unit {0})))
    → closed fd t ≡ false
    → copy_round i o s k t ≡ done r u
    → Held (λ _ v. closed fd v ≡ false) (λ _ v. closed fd v ≡ false) r u
unfolding copy_round closed
copy_round-closed i o fd k s t u r c h = grind arith

copy_loop-closed :
    (n i o fd : ℕ) (k : Kernel) (t u : Trace) (r : Reply (Unit {0}))
    → closed fd t ≡ false
    → copy_loop n i o k t ≡ done r u
    → closed fd u ≡ false
unfolding copy_loop
copy_loop-closed n i o fd k t u r c h =
    loop_done (copy_round i o) k (λ _ v. closed fd v ≡ false) (λ _ v. closed fd v ≡ false)
      (copy_round-closed i o fd k) n tt t u r c h

finish-closed :
    (i o n : ℕ) (r : Reply (Unit {0})) (k : Kernel) (t u : Trace)
    → i ≢ o
    → o ≢ 0
    → closed o t ≡ false
    → finish i o r k t ≡ done n u
    → (closed o u ≡ false) × (closed 0 u ≡ true)
unfolding finish closed
finish-closed i o n r k t u ne ne0 c h = ground arith

module _ (k : Kernel) (p a b : Text) (i o : ℕ) (old_file : Opens k a (o_rdonly ∷ []) 0 i)
    (new_file : Opens k b (o_creat ∷ o_wronly ∷ o_trunc ∷ []) file_perms o) where
  abbrev opened : Trace
  opened =
      (open_file b (o_creat ∷ o_wronly ∷ o_trunc ∷ []) file_perms, ok o)
      ∷ (open_file a (o_rdonly ∷ []) 0, ok i)
      ∷ (printf "\nstart\n" [], tt)
      ∷ []

  -- A run that returns is the loop from the two open files, and the closing calls.
  parts :
      (fuel n : ℕ) (u : Trace)
      → main fuel (p ∷ a ∷ b ∷ []) k [] ≡ done n u
      → (r : Reply (Unit {0})) × (v : Trace) × (copy_loop fuel i o k opened ≡ done r v)
        × (finish i o r k v ≡ done n u)
  unfolding main text_eq
  parts fuel n u h = elim (Bool-cases (text_eq a (codes "--help"))) [
    | inl help ↦ ground (arith, help)
    | inr plain ↦
        and_then_done (copy_loop fuel i o k opened) (λ r. finish i o r) k
          (simp (plain, old_file.open_ok, new_file.open_ok) at h)
  ]

  -- If both files open, then whenever copy.c returns, it returns 0, the bytes accepted by the new
  -- file are exactly those read from the old one, and the last read was at the end of the old file.
  pub main-copied :
      (fuel n : ℕ) (u : Trace)
      → main fuel (p ∷ a ∷ b ∷ []) k [] ≡ done n u
      → (n ≡ 0) × (sent o u ≡ received i u) × (last_read i u ≡ some (ok []))
  unfolding sent received
  main-copied fuel n u h =
      let (r, v, e, f) = parts fuel n u h in
      finish-Drained i o n r k v u (copy_loop-Drained fuel i o k opened v r refl e) f

  -- If both files open, under different numbers and the new one not under 0, then when copy.c
  -- returns, it has not closed the new file: the call that should do so closes descriptor 0.
  pub main-leaves_open :
      (fuel n : ℕ) (u : Trace)
      → i ≢ o
      → o ≢ 0
      → main fuel (p ∷ a ∷ b ∷ []) k [] ≡ done n u
      → (closed o u ≡ false) × (closed 0 u ≡ true)
  unfolding closed
  main-leaves_open fuel n u ne ne0 h =
      let (r, v, e, f) = parts fuel n u h in
      finish-closed i o n r k v u ne ne0 (copy_loop-closed fuel i o o k opened v r refl e) f
