-- ===== src/Processes/MultiWait/Examples.antt =====
-- Two children.
use linux_unix_system_progra.Prelude.{ℕ, suc, ◌+◌, ◌≡◌, ◌⊎◌, refl, some, []}
use linux_unix_system_progra.Sys.{
  Kernel, Trace, End, halted, exited, out_of_fuel, echild, Reply, ok, fail, wait_child, loop,
}
use linux_unix_system_progra.Sys.Sample.{sample}
use linux_unix_system_progra.Processes.MultiWait.{wait_round}
use linux_unix_system_progra.Processes.MultiWait.Waits.{reaped, last_wait, shown_count, loop-Bye}

abbrev child : ℕ → Reply ℕ
child (suc (suc n)) = fail echild
child _ = ok 8

abbrev kernel : Kernel
kernel t wait_child = child (reaped t)
kernel t c = sample t c

loop-Bye_example :
    (u : Trace) × (e : End) × (loop 5 wait_round 0 kernel [] ≡ halted e u)
    × ((e ≡ out_of_fuel)
        ⊎ (e ≡ exited 1)
        ⊎ ((e ≡ exited 0) × (last_wait u ≡ some (fail echild)) × (reaped u ≡ 0 + shown_count u)))
unfolding reaped shown_count
loop-Bye_example = loop-Bye kernel 0 5 [] refl refl
