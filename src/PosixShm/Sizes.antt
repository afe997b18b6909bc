-- ===== src/PosixShm/Sizes.antt =====
-- What a successful run of pshm_create.c did.
use linux_unix_system_progra.Prelude.{
  ℕ, ◌≡◌, ◌≢◌, ◌++◌, refl, subst, negsuc, ℤ, pos, none, some, Option, inl, inr, List, [], ◌∷◌, Text,
  arith, atoi, int_size, ltb, length, false,
}
use linux_unix_system_progra.Sys.{
  OpenFlag, o_rdwr, Trace, Kernel, End, exited, Reply, ok, fail, halted, ebadf, operands, shm_open,
  shm_truncate, mmap, printf, loop, loop_ends, and_then_halted, M, ◌>>=◌, call, int_of, or_die,
  exit,
}
use linux_unix_system_progra.PosixShm.Create.{
  option_round, usage_error, perms_of, make, create, main,
}

-- The object that was opened last, with its descriptor, and the descriptor and the size of the last
-- successful ftruncate.
unfoldable pub opened : Trace → Option (Text × ℕ)
opened [] = none
opened ((shm_open name _ _, ok fd) ∷ t) = some (name, fd)
opened (_ ∷ t) = opened t

unfoldable pub sized : Trace → Option (ℤ × ℕ)
sized [] = none
sized ((shm_truncate fd n, ok _) ∷ t) = some (fd, n)
sized (_ ∷ t) = sized t

-- The object with this name has this size.
abbrev pub Sized : Text → ℕ → Trace → Type 0
Sized name size u = (fd : ℕ) × (opened u ≡ some (name, fd)) × (sized u ≡ some (pos fd, size))

module _ (k : Kernel)
    (rejects : (t : Trace) (n : ℕ) → k t (shm_truncate (negsuc 0) n) ≡ fail ebadf) where
  abbrev stop : M (Unit {0})
  stop = exit 0

  after_open :
      (name : Text) (size : ℕ) (t u : Trace) (flags : List OpenFlag) (perms : ℤ) (r : Reply ℕ)
      → ((call (shm_truncate (int_of r) size) >>= λ x. or_die "ftruncate\n" 1 x) >>= λ _.
            (call (mmap (int_of r) size) >>= λ x. or_die "mmap\n" 1 x) >>= λ _. stop)
          k
          ((shm_open name flags perms, r) ∷ t)
        ≡ halted (exited 0) u
      → Sized name size u
  unfolding opened sized
  after_open name size t u flags perms (ok fd) h = (fd, ground arith, ground arith)
  after_open name size t u flags perms (fail e) h =
      let r = rejects ((shm_open name flags perms, fail e) ∷ t) size in ground (arith, r)

  make-Sized :
      (flags : List OpenFlag) (name : Text) (size : ℕ) (perms : ℤ) (t u : Trace)
      → make flags name size perms k t ≡ halted (exited 0) u
      → Sized name size u
  unfolding make
  make-Sized flags name size perms t u h =
      after_open name size t u (flags ++ o_rdwr ∷ []) perms
        (k t (shm_open name (flags ++ o_rdwr ∷ []) perms)) h

module _ (k : Kernel) (rejects : (t : Trace) (n : ℕ) → k t (shm_truncate (negsuc 0) n) ≡ fail ebadf)
    (name size : Text) (more : List Text) where
  create-Sized :
      (prog_name : Text) (flags : List OpenFlag) (t u : Trace)
      → create prog_name flags (name ∷ size ∷ more) k t ≡ halted (exited 0) u
      → Sized name (int_size (atoi size)) u
  unfolding create
  create-Sized p flags t u h =
      let enough : ltb (length (name ∷ size ∷ more)) 2 ≡ false = ground arith in
      make-Sized k rejects flags name (int_size (atoi size)) (perms_of (name ∷ size ∷ more))
        ((printf "Afterperms\n" [], tt)
          ∷ (printf "Before perms\n" [], tt)
          ∷ (printf "After while loop\n" [], tt)
          ∷ t)
        u (ground (arith, enough, h))

  round-no_success :
      (p : Text) (flags : List OpenFlag) (t u : Trace) (e : End)
      → option_round p flags k t ≡ halted e u
      → e ≢ exited 0
  unfolding option_round usage_error
  round-no_success p flags t u e h = ground arith

  -- If ftruncate refuses the descriptor -1 and the operands are a name and a size, with or without
  -- permissions, then after pshm_create.c ends with status 0, the object with this name was opened and
  -- has this size, although the result of shm_open is not checked.
  pub main-Sized :
      (fuel : ℕ) (argv : List Text) (u : Trace)
      → ((t : Trace) → k t operands ≡ name ∷ size ∷ more)
      → main fuel argv k [] ≡ halted (exited 0) u
      → (fd : ℕ) × (opened u ≡ some (name, fd)) × (sized u ≡ some (pos fd, int_size (atoi size)))
  unfolding main
  main-Sized fuel [] u ops h = ground arith
  main-Sized fuel (p ∷ ps) u ops h =
      elim (and_then_halted (loop fuel (option_round p) [] k [])
        (λ flags. call operands >>= λ rest. create p flags rest) k h) [
          | inl g ↦ absurd (
              loop_ends (option_round p) k (λ e. e ≢ exited 0) (round-no_success p)
                (λ e. ground (arith, e)) fuel [] [] u (exited 0) g refl)
          | inr (flags, v, g, f) ↦
              create-Sized p flags ((operands, name ∷ size ∷ more) ∷ v) u (
                subst (λ r. create p flags r k ((operands, r) ∷ v) ≡ halted (exited 0) u) (ops v) f)
        ]
