-- ===== src/Events/Select.antt =====
-- TLPI/chapter63/t_select.c: asks select for the descriptors that its arguments name.
pub mod Within
mod Examples
use linux_unix_system_progra.Prelude.{
  ℕ, zero, suc, ◌+◌, ◌/◌, ◌==◌, ◌||◌, String, ℤ, pos, negsuc, Bool, true, false, Option, none, some,
  List, [], ◌∷◌, Text, codes, text_eq, ltb, leb, length, if◌then◌else◌, atoi, scan_int,
}
use linux_unix_system_progra.Sys.{
  Reply, ok, fail, End, num, int, str, printf, select, M, ◌>>=◌, ◌>>◌, pure, call, halt, exit,
  or_die, returning, arg,
}

abbrev pub fd_setsize : ℕ
fd_setsize = 1024

-- Whether the first or the second of the at most two letters is `c`.
abbrev pub strchr : ℕ → Text → Bool
strchr c [] = false
strchr c (a ∷ []) = a == c
strchr c (a ∷ b ∷ s) = a == c || b == c

abbrev is_rw : ℕ → Bool
is_rw c = c == b'r' || c == b'w'

-- %2[rw]: one or two letters.
abbrev pub scan_letters : Text → Option Text
scan_letters [] = none
scan_letters (a ∷ []) = if is_rw a then some (a ∷ []) else none
scan_letters (a ∷ b ∷ s) =
    if is_rw a then (if is_rw b then some (a ∷ b ∷ []) else some (a ∷ [])) else none

abbrev letters_of : Option (ℤ × Text) → Option (ℤ × Text)
letters_of none = none
letters_of (some (fd, rest)) = elim (scan_letters rest) [ none ↦ none | some buf ↦ some (fd, buf) ]

-- sscanf(argument, "%d%2[rw]", &fd, buf); none where it does not return 2.
pub scan_fd : Text → Option (ℤ × Text)
scan_fd argument = letters_of (scan_int argument)

-- The sets, as lists of their members, and `nfds`.
pub record Sets : Type 0 where
  pub readfds : List ℕ
  pub writefds : List ℕ
  pub nfds : ℤ

abbrev pub sets : List ℕ → List ℕ → ℤ → Sets
sets readfds writefds nfds = record { readfds = readfds; writefds = writefds; nfds = nfds }

-- Behind `fd >= nfds`.
abbrev pub next_nfds : ℕ → ℤ → ℤ
next_nfds fd (negsuc n) = pos (fd + 1)
next_nfds fd (pos n) = if leb n fd then pos (fd + 1) else pos n

abbrev with_fd : ℕ → Text → Sets → Sets
with_fd fd buf s =
    sets (if strchr b'r' buf then fd ∷ s.readfds else s.readfds)
      (if strchr b'w' buf then fd ∷ s.writefds else s.writefds) (next_nfds fd s.nfds)

-- FD_SET outside of the set is undefined; FD_SETSIZE passes the test.
pub add : ℤ → Text → Sets → M Sets
add (negsuc n) buf s = halt End.undefined
add (pos fd) buf s =
    if ltb fd_setsize fd
    then (do
      call (printf "cmdLineErr: file descriptor exceeds limit (%d)\n" (num fd_setsize ∷ []))
      exit 1)
    else if fd == fd_setsize
    then halt End.undefined
    else pure (with_fd fd buf s)

pub usage : Text → M Sets
usage prog = do call (printf "usageError: %s" (str prog ∷ [])); exit 1

abbrev pub add_scanned : Text → Option (ℤ × Text) → Sets → M Sets
add_scanned prog none s = usage prog
add_scanned prog (some (fd, buf)) s = add fd buf s

-- The loop over argv, from 2 on.
pub add_all : Text → List Text → Sets → M Sets
unfolding add scan_fd usage
add_all prog [] s = pure s
add_all prog (argument ∷ more) s = do s ← add_scanned prog (scan_fd argument) s; add_all prog more s

abbrev member : ℕ → List ℕ → Bool
member fd [] = false
member fd (x ∷ xs) = let rest = member fd xs in x == fd || rest

abbrev letter : String → Bool → Text
letter s true = codes s
letter s false = []

-- For this many descriptors from `fd` on. FD_ISSET outside of the sets is undefined.
pub show_sets : ℕ → ℕ → List ℕ → List ℕ → M (Unit {0})
show_sets fd zero reads writes = pure tt
show_sets fd (suc n) reads writes =
    let rest = show_sets (suc fd) n reads writes in
    if leb fd_setsize fd then halt End.undefined else (do
      call (
          printf "%d: %s%s\n" (
            num fd ∷ str (letter "r" (member fd reads)) ∷ str (letter "w" (member fd writes)) ∷ []))
      rest)

abbrev pub times : ℤ → ℕ
times (pos n) = n
times (negsuc n) = 0

abbrev negated : ℕ → ℤ
negated zero = pos 0
negated (suc n) = negsuc n

-- Division of a `long` by 10000 goes towards 0.
abbrev divided : ℤ → ℤ
divided (pos n) = pos (n / 10000)
divided (negsuc n) = negated ((n + 1) / 10000)

pub show_timeout : Option ℤ → ℤ × ℤ → M (Unit {0})
show_timeout none left = pure tt
show_timeout (some _) (sec, usec) =
    call (printf "timeout after select(): %ld.%03ld\n" (int sec ∷ int (divided usec) ∷ []))

pub watch : Option ℤ → Sets → M (Unit {0})
unfolding show_sets show_timeout
watch pto s = do
  answered ← call (select s.nfds s.readfds s.writefds pto)
  selected ← returning answered
  answer ← or_die "select\n" 1 selected
  call (printf "ready = %d\n" (num answer.0 ∷ []))
  show_sets 0 (times s.nfds) answer.1.0 answer.1.1
  show_timeout pto answer.2
  exit 0

abbrev pub timeout_of : Text → Option ℤ
timeout_of first = if text_eq (codes "-") first then none else some (atoi first)

-- `garbage` is what the sets and `nfds` hold at first. Without argv[0], the usage message is undefined.
pub main : Sets → List Text → M (Unit {0})
unfolding add_all watch usage
main garbage [] = do arg [] 0; pure tt
main garbage (prog ∷ []) = do usage prog; pure tt
main garbage (prog ∷ first ∷ more) =
    if text_eq first (codes "--help")
    then (do usage prog; pure tt)
    else (do s ← add_all prog more garbage; watch (timeout_of first) s)
