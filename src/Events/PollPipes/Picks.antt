-- ===== src/Events/PollPipes/Picks.antt =====
-- The random number always picks a pipe.
use linux_unix_system_progra.Prelude.{ℕ, ◌≡◌, List, length}
use linux_unix_system_progra.Sys.{halted, exited, Kernel, exited, halted}
use linux_unix_system_progra.Events.Chosen.{Chosen}

module _ (k : Kernel) where
  abbrev Long : ℕ → List (ℕ × ℕ) → Type 0
  Long n pfds = length pfds ≡ n
