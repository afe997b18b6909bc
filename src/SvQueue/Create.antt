-- ===== src/SvQueue/Create.antt =====
-- TLPI/chapter46/svmsg_create.c: makes or opens a message queue and prints its id.
pub mod KeyCount
use linux_unix_system_progra.Prelude.{
  ℕ, zero, ◌+◌, ◌*◌, ◌%◌, ◌^◌, ◌==◌, ℤ, pos, negsuc, none, some, String, Option, List, [], ◌∷◌,
  Text, codes, if◌then◌else◌, not, atoi, scan_long, int_bits, bits_int,
}
use linux_unix_system_progra.Sys.{
  Reply, ok, fail, IpcFlag, ipc_creat, ipc_excl, Key, ipc_private, key, str, num, printf, eprintf,
  ftok, msgget, getopt, operands, M, ◌>>=◌, ◌>>◌, pure, call, exit, die, or_die, arg, Round, next,
  leave, loop,
}

-- The local variables that the options set: `numKeyFlags` as a bit pattern, `flags`, and `key`.
pub record Options : Type 0 where
  pub num_key_flags : ℕ
  pub flags : List IpcFlag
  pub queue_key : ℤ

abbrev pub options : ℕ → List IpcFlag → ℤ → Options
options n flags k = record { num_key_flags = n; flags = flags; queue_key = k }

abbrev report : Option String → M (Unit {0})
report none = pure tt
report (some msg) = call (eprintf msg [])

unfoldable pub usage_error : {A : Type 0} → Text → Option String → M A
usage_error prog_name msg = do
  report msg
  call (eprintf "Usage: %s [-cx] {-f pathname | -k key | -p} [octal-perms]\n" (str prog_name ∷ []))
  call (eprintf " -c Use IPC_CREAT flag\n" [])
  call (eprintf " -x Use IPC_EXCL flag\n" [])
  call (eprintf " -f pathname Generate key using ftok()\n" [])
  call (eprintf " -k key Use 'key' as key\n" [])
  call (eprintf " -p Use IPC_PRIVATE key\n" [])
  exit 1

abbrev word : ℕ
word = 2 ^ 32

-- One more key option, with this key.
abbrev with_key : Options → ℤ → Options
with_key o k = options ((o.num_key_flags + 1) % word) o.flags k

-- A result of ftok that is -1 counts as a failure, too.
abbrev ftok_key : Options → Reply ℤ → M (Round Options Options)
ftok_key o (ok (negsuc zero)) = die "ftok\n" 1
ftok_key o (ok k) = pure (next (with_key o k))
ftok_key o (fail e) = die "ftok\n" 1

abbrev number_key : Options → Option ℤ → M (Round Options Options)
number_key o none = die "cmdLineErr(-k option requires a numeric argument\n" 1
number_key o (some lkey) = pure (next (with_key o (bits_int (int_bits lkey))))

-- One option: its character and `optarg`.
unfoldable pub option : Text → Options → ℕ → Text → M (Round Options Options)
unfolding usage_error
option prog_name o opt optarg =
    if opt == b'c'
    then pure (next (options o.num_key_flags (ipc_creat ∷ o.flags) o.queue_key))
    else if opt == b'f'
    then (do found ← call (ftok optarg 1); ftok_key o found)
    else if opt == b'k'
    then number_key o (scan_long optarg)
    else if opt == b'p'
    then pure (next (with_key o (pos 0)))
    else if opt == b'x'
    then pure (next (options o.num_key_flags (ipc_excl ∷ o.flags) o.queue_key))
    else usage_error prog_name (some "Bad option\n")

unfoldable pub option_round : Text → Options → M (Round Options Options)
unfolding option
option_round prog_name o = do
  opt ← call (getopt "cf:k:px")
  elim opt [ none ↦ pure (leave o) | some c ↦ option prog_name o c.0 c.1 ]

-- IPC_PRIVATE is 0.
abbrev key_of : ℤ → Key
key_of (pos zero) = ipc_private
key_of k = key k

abbrev perms_of : List Text → ℕ
perms_of [] = 6 * 64
perms_of (p ∷ _) = int_bits (atoi p)

-- The flags and the permissions of `msgget` are combined with |.
unfoldable pub open_queue : Options → M (Unit {0})
open_queue o = do
  rest ← call operands
  msqid ← or_die "msgget\n" 1 (← call (msgget (key_of o.queue_key) o.flags (perms_of rest)))
  call (printf "%d\n" (num msqid ∷ []))
  exit 0

-- `start` is what the variables hold before they are set.
unfoldable pub main : ℕ → Options → List Text → M (Unit {0})
unfolding open_queue option_round
main fuel start argv = do
  prog_name ← arg argv 0
  o ← loop fuel (option_round prog_name) start
  if not (o.num_key_flags == 1)
      then usage_error prog_name
          (some "Exactly one of the options -f, -k, or -p must be supplied\n")
      else open_queue o
