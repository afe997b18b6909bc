-- ===== src/Pipe/LsWc/Wiring.antt =====
-- How the children are joined to the pipe.
use linux_unix_system_progra.Prelude.{ℕ, ◌≡◌, true, arith, ◌⊎◌}
use linux_unix_system_progra.Sys.{Trace, Kernel, End, exited, replaced, halted}
use linux_unix_system_progra.Sys.View.{closed, origin}
use linux_unix_system_progra.Pipe.LsWc.{exec, wc_child}

-- When wc starts, its standard input is the read end of the pipe, the write end is closed, and so is
-- the read end if it is another number. The process ends by starting wc, or with status 1.
pub wc_child-origin :
    (r w : ℕ) (k : Kernel) (t u : Trace) (e : End)
    → wc_child r w k t ≡ halted e u
    → (e ≡ exited 1)
      ⊎ ((e ≡ replaced)
          × (closed w u ≡ true)
          × (origin 0 u ≡ origin r t ⊎ (r ≡ 0))
          × ((r ≡ 0) ⊎ (closed r u ≡ true)))
unfolding wc_child exec closed origin
wc_child-origin r w k t u e h = ground arith
