-- ===== src/Events/PollPipes.antt =====
-- TLPI/chapter63/poll_pipes.c: writes to pipes picked at random and asks poll which can be read.
pub mod Picks
mod Examples
use linux_unix_system_progra.Prelude.{
  ℕ, zero, suc, ◌%◌, String, ℤ, pos, negsuc, Bool, true, false, Option, none, some, List, [], ◌∷◌,
  map, Text, codes, text_eq, leb, length, get_elem?, if◌then◌else◌, atoi, int_size,
}
use linux_unix_system_progra.Sys.{
  Reply, ok, fail, End, num, str, printf, pipe, pipe_write, returning, poll_in, seed_random, random,
  calloc, M, ◌>>=◌, ◌>>◌, pure, call, halt, exit, die, or_die, arg,
}

-- How often `j < n` holds, for j from 0.
abbrev pub rounds : ℤ → ℕ
rounds (pos n) = n
rounds (negsuc n) = 0

abbrev pub allocated : String → Bool → M (Unit {0})
allocated message true = pure tt
allocated message false = die message 1

pub make_pipes : ℕ → M (List (ℕ × ℕ))
make_pipes zero = pure []
make_pipes (suc n) = do
  ends ← or_die "pipe\n" 1 (← call pipe)
  more ← make_pipes n
  pure (ends ∷ more)

-- random() % numPipes: undefined for 0, and never below 0, since random() is not.
abbrev pub remainder : ℕ → ℤ → Option ℕ
remainder r (pos zero) = none
remainder r (pos (suc n)) = some (r % suc n)
remainder r (negsuc n) = some (r % suc n)

-- A division by zero, or an index behind the array, is undefined.
abbrev pub defined : {A : Type 0} → Option A → M A
defined none = halt End.undefined
defined (some a) = pure a

pub write_one : ℤ → List (ℕ × ℕ) → M (Unit {0})
write_one num_pipes pfds = do
  number ← call random
  rand_pipe ← defined (remainder number num_pipes)
  ends ← defined (get_elem? pfds rand_pipe)
  call (printf "Writing to fd: %3d (read fd: %3d)\n" (num ends.1 ∷ num ends.0 ∷ []))
  answered ← call (pipe_write ends.1 (codes "a") 1)
  written ← returning answered
  or_die "write\n" 1 written
  pure tt

pub write_some : ℕ → ℤ → List (ℕ × ℕ) → M (Unit {0})
unfolding write_one
write_some zero num_pipes pfds = pure tt
write_some (suc n) num_pipes pfds = do write_one num_pipes pfds; write_some n num_pipes pfds

-- From `j` on; an entry that poll says nothing of is not readable.
pub show_readable : ℕ → List (ℕ × ℕ) → List Bool → M (Unit {0})
show_readable j [] revents = pure tt
show_readable j (ends ∷ more) [] = pure tt
show_readable j (ends ∷ more) (false ∷ revents) = show_readable (suc j) more revents
show_readable j (ends ∷ more) (true ∷ revents) = do
  call (printf "Readable: %d %3d\n" (num j ∷ num ends.0 ∷ []))
  show_readable (suc j) more revents

pub watch : List (ℕ × ℕ) → M (Unit {0})
unfolding show_readable
watch pfds = do
  answered ← call (poll_in (map (λ ends. ends.0) pfds))
  polled ← returning answered
  ready ← or_die "poll\n" 1 polled
  call (printf "poll() returned: %d\n" (num ready.0 ∷ []))
  show_readable 0 pfds ready.1
  exit 0

pub run : ℤ → ℤ → M (Unit {0})
unfolding make_pipes write_some watch
run num_pipes num_writes = do
  allocated "calloc pfds\n" (← call (calloc (int_size num_pipes) 8))
  allocated "calloc pollFd\n" (← call (calloc (int_size num_pipes) 8))
  pfds ← make_pipes (rounds num_pipes)
  call seed_random
  write_some (rounds num_writes) num_pipes pfds
  watch pfds

pub wants_help : List Text → Bool
wants_help (prog ∷ first ∷ rest) = text_eq first (codes "--help")
wants_help _ = true

pub writes_of : List Text → ℤ
writes_of (prog ∷ first ∷ second ∷ rest) = atoi second
writes_of _ = pos 1

pub main : List Text → M (Unit {0})
unfolding run wants_help writes_of
main argv =
    if wants_help argv
    then (do
      name ← arg argv 0
      call (printf "usageErr: %s num-pipes [num-writes]\n" (str name ∷ []))
      exit 1)
    else (do first ← arg argv 1; run (atoi first) (writes_of argv))
