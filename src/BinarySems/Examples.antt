-- ===== src/BinarySems/Examples.antt =====
-- A semaphore that is interrupted once.
use linux_unix_system_progra.Prelude.{
  ◌≡◌, inl, inr, refl, Bool-cases, negsuc, [], arith, ltb, if◌then◌else◌, zero,
}
use linux_unix_system_progra.Sys.{Kernel, Trace, ok, fail, done, eintr, semop, loop}
use linux_unix_system_progra.Sys.Sample.{sample, trace}
use linux_unix_system_progra.Sys.View.{taken, interrupted}
use linux_unix_system_progra.BinarySems.{defaults, reserve_sem}
use linux_unix_system_progra.BinarySems.Counts.{
  reserve_sem-taken, reserve_sem_total, Taken, Attempt,
}

abbrev kernel : Kernel
kernel t (semop i n (negsuc zero) f) = if ltb (interrupted i n t) 1 then fail eintr else ok tt
kernel t c = sample t c

abbrev u : Trace
u = trace (reserve_sem 3 defaults 2 0 kernel [])

reserve_sem-taken_example : Taken defaults 2 0 kernel 0 (ok tt) u
unfolding taken reserve_sem loop interrupted
reserve_sem-taken_example = reserve_sem-taken defaults 2 0 kernel 0 3 [] u (ok tt) refl refl

attempt : (t : Trace) → Attempt defaults 2 0 kernel 1 t
attempt t = elim (Bool-cases (ltb (interrupted 2 0 t) 1)) [
  | inl early ↦ inr (ground (arith, early))
  | inr late ↦ inl (rw late)
]

reserve_sem_total_example : (u : Trace) × (reserve_sem 2 defaults 2 0 kernel [] ≡ done (ok tt) u)
unfolding interrupted
reserve_sem_total_example =
    reserve_sem_total defaults 2 0 1 kernel refl attempt 2 [] (omega arith) (omega arith)
