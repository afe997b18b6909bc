-- ===== src/PosixShm/Create.antt =====
-- TLPI/chapter54/pshm_create.c: makes a shared memory object of a given size.
use linux_unix_system_progra.Prelude.{
  ℕ, ◌*◌, ◌==◌, ℤ, pos, none, some, List, [], ◌∷◌, ◌++◌, Text, ltb, length, if◌then◌else◌, atoi,
  int_size,
}
use linux_unix_system_progra.Sys.{
  OpenFlag, o_rdwr, o_creat, o_excl, str, eprintf, getopt, operands, shm_open, shm_truncate, mmap,
  M, ◌>>=◌, ◌>>◌, pure, call, exit, say, or_die, arg, int_of, Round, next, leave, loop,
}

unfoldable pub usage_error : {A : Type 0} → Text → M A
usage_error prog_name = do
  call (eprintf "Usage: %s [-cx] name size [octal-perms]\n" (str prog_name ∷ []))
  call (eprintf " -c Create shared memory (O_CREAT)\n" [])
  call (eprintf " -x Create exclusively (O_EXCL)\n" [])
  exit 1

unfoldable pub option_round : Text → List OpenFlag → M (Round (List OpenFlag) (List OpenFlag))
unfolding usage_error
option_round prog_name flags = do
  opt ← call (getopt "cx")
  elim opt [
    | none ↦ pure (leave flags)
    | some c ↦
        if c.0 == b'c'
        then pure (next (o_creat ∷ flags))
        else if c.0 == b'x'
        then pure (next (o_excl ∷ flags))
        else usage_error prog_name
  ]

abbrev pub perms_of : List Text → ℤ
perms_of (_ ∷ _ ∷ perms ∷ _) = atoi perms
perms_of _ = pos (6 * 64)

-- The result of shm_open goes on unchecked.
unfoldable pub make : List OpenFlag → Text → ℕ → ℤ → M (Unit {0})
make flags name size perms = do
  fd ← call (shm_open name (flags ++ o_rdwr ∷ []) perms)
  or_die "ftruncate\n" 1 (← call (shm_truncate (int_of fd) size))
  or_die "mmap\n" 1 (← call (mmap (int_of fd) size))
  exit 0

unfoldable pub create : Text → List OpenFlag → List Text → M (Unit {0})
unfolding make usage_error
create prog_name flags rest = do
  say "After while loop\n"
  if ltb (length rest) 2 then usage_error prog_name else (do
    size ← arg rest 1
    say "Before perms\n"
    say "Afterperms\n"
    name ← arg rest 0
    make flags name (int_size (atoi size)) (perms_of rest))

unfoldable pub main : ℕ → List Text → M (Unit {0})
unfolding create option_round
main fuel argv = do
  prog_name ← arg argv 0
  flags ← loop fuel (option_round prog_name) []
  rest ← call operands
  create prog_name flags rest
