-- ===== src/Processes/MultiWait.antt =====
-- TLPI/chapter26/multi_wait.c: makes children and waits until there are none.
pub mod Waits
mod Examples
use linux_unix_system_progra.Prelude.{
  ℕ, zero, suc, ◌+◌, Bool, true, false, List, [], ◌∷◌, Text, codes, text_eq, ltb, length,
  if◌then◌else◌, atoi,
}
use linux_unix_system_progra.Sys.{
  Errno, echild, Reply, ok, fail, num, str, printf, fork, getpid, sleep, wait_child, M, ◌>>=◌, ◌>>◌,
  pure, call, exit, die, say, arg, Round, next, leave, loop,
}

abbrev wants_help : List Text → M Bool
wants_help argv =
    if ltb (length argv) 2
    then pure true
    else (do first ← arg argv 1; pure (text_eq first (codes "--help")))

-- What fork returned; a child goes on with the loop when it has slept.
abbrev pub after_fork : ℕ → Text → Reply ℕ → M (Unit {0})
after_fork j secs (fail e) = die "errExit: fork\n" 1
after_fork j secs (ok zero) = do
  pid ← call getpid
  call (
      printf "[] child %d started with PID %ld, sleeping %s seconds\n"
        (num j ∷ num pid ∷ str secs ∷ []))
  call (sleep (atoi secs))
  pure tt
after_fork j secs (ok (suc pid)) = pure tt

-- The loop over argv, which begins with the name of the program.
unfoldable pub fork_from : ℕ → List Text → M (Unit {0})
fork_from j [] = pure tt
fork_from j (secs ∷ more) = do forked ← call fork; after_fork j secs forked; fork_from (suc j) more

abbrev pub is_echild : Errno → Bool
is_echild echild = true
is_echild _ = false

-- The variable is `numDead`.
unfoldable pub wait_round : ℕ → M (Round ℕ (Unit {0}))
wait_round num_dead = do
  child_pid ← call wait_child
  elim child_pid [
    | fail e ↦
        if is_echild e
        then (do say "No more children - bye!\n"; exit 0)
        else die "errExit: wait\n" 1
    | ok pid ↦ do
      call (
          printf "[s] wait() returned child PID %ld (numDead=%d)\n"
            (num pid ∷ num (num_dead + 1) ∷ []))
      pure (next (num_dead + 1))
  ]

unfoldable pub main : ℕ → List Text → M (Unit {0})
unfolding fork_from wait_round
main fuel argv = do
  help ← wants_help argv
  if help
      then (do
        name ← arg argv 0
        call (printf "usageErr: %s sleep-time...\n" (str name ∷ []))
        exit 1)
      else (do fork_from 0 argv; loop fuel wait_round 0)
