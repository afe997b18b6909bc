-- ===== src/BinarySems.antt =====
-- TLPI/chapter47/binary_sems.c: binary semaphores over System V semaphores.
mod Examples
pub mod Counts
use linux_unix_system_progra.Prelude.{
  ℕ, Bool, true, false, not, ◌||◌, List, [], ◌∷◌, if◌then◌else◌, pos, negsuc,
}
use linux_unix_system_progra.Sys.{
  Errno, eintr, Reply, ok, fail, IpcFlag, sem_undo, semctl_setval, semop, M, ◌>>=◌, pure, call,
  Round, next, leave, loop,
}

-- The two global variables of the file.
pub record Config : Type 0 where
  pub bs_use_sem_undo : Bool
  pub bs_retry_on_eintr : Bool

-- The values that binary_sems.c gives them.
abbrev pub defaults : Config
defaults = record { bs_use_sem_undo = false; bs_retry_on_eintr = true }

abbrev pub is_eintr : Errno → Bool
is_eintr eintr = true
is_eintr _ = false

unfoldable pub init_sem_available : ℕ → ℕ → M (Reply (Unit {0}))
init_sem_available sem_id sem_num = call (semctl_setval sem_id sem_num 1)

unfoldable pub init_sem_in_use : ℕ → ℕ → M (Reply (Unit {0}))
init_sem_in_use sem_id sem_num = call (semctl_setval sem_id sem_num 0)

pub sem_flg : Config → List IpcFlag
sem_flg c = if c.bs_use_sem_undo then sem_undo ∷ [] else []

-- One round of the loop that retries an interrupted `semop`.
pub reserve_round : Config → ℕ → ℕ → Unit {0} → M (Round (Unit {0}) (Reply (Unit {0})))
unfolding sem_flg
reserve_round c sem_id sem_num _ = do
  taken ← call (semop sem_id sem_num (negsuc 0) (sem_flg c))
  elim taken [
    | ok _ ↦ pure (leave (ok tt))
    | fail e ↦
        if not (is_eintr e) || not c.bs_retry_on_eintr
        then pure (leave (fail e))
        else pure (next tt)
  ]

unfoldable pub reserve_sem : ℕ → Config → ℕ → ℕ → M (Reply (Unit {0}))
unfolding reserve_round
reserve_sem fuel c sem_id sem_num = loop fuel (reserve_round c sem_id sem_num) tt

unfoldable pub release_sem : Config → ℕ → ℕ → M (Reply (Unit {0}))
unfolding sem_flg
release_sem c sem_id sem_num = call (semop sem_id sem_num (pos 1) (sem_flg c))
