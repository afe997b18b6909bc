-- ===== src/Events/Select/Within.antt =====
-- When t_select.c stays within its sets.
use linux_unix_system_progra.Prelude.{
  ◌≤◌, ◌≢◌, ℤ, pos, negsuc, Option, some, none, List, [], ◌∷◌, Text,
}
use linux_unix_system_progra.Sys.{halted, exited, exited, halted}
use linux_unix_system_progra.Events.Chosen.{Chosen}
use linux_unix_system_progra.Events.Select.{fd_setsize, scan_fd, Sets, times}

-- The argument names no descriptor outside of a set that passes the test.
abbrev pub Named : Option (ℤ × Text) → Type 0
Named none = Unit
Named (some (pos fd, _)) = fd ≢ fd_setsize
Named (some (negsuc _, _)) = ⊥

abbrev pub AllNamed : List Text → Type 0
AllNamed [] = Unit
AllNamed (argument ∷ more) = Named (scan_fd argument) × AllNamed more

abbrev Small : Sets → Type 0
Small s = times s.nfds ≤ fd_setsize
