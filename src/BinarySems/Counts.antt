-- ===== src/BinarySems/Counts.antt =====
-- What reserving and releasing do to the count of a semaphore.
use linux_unix_system_progra.Prelude.{
  ℕ, suc, subst, sym, ◌-◌, ◌<◌, ◌≤◌, ◌≡◌, refl, ◌≢◌, true, false, ◌∷◌, negsuc, ◌⊎◌, inl, inr, arith,
  ==-refl,
}
use linux_unix_system_progra.Sys.{
  eintr, Reply, ok, fail, semop, Trace, Kernel, End, out_of_fuel, done, halted, Round, next, leave,
  loop_done, loop_ends, loop_total, Held, Shorter,
}
use linux_unix_system_progra.Sys.View.{
  taken, given, interrupted, sent, received, stored, stored_cnt, stored_blocks,
}
use linux_unix_system_progra.BinarySems.{Config, sem_flg, reserve_round, reserve_sem}

module _ (c : Config) (id n : ℕ) (k : Kernel) (m : ℕ) where
  abbrev pub Taken : Reply (Unit {0}) → Trace → Type 0
  Taken (ok _) u = taken id n u ≡ suc m
  Taken (fail e) u = (taken id n u ≡ m) × ((c.bs_retry_on_eintr ≡ false) ⊎ (e ≢ eintr))

  round-Held :
      (s : Unit {0}) (t u : Trace) (r : Round (Unit {0}) (Reply (Unit {0})))
      → taken id n t ≡ m
      → reserve_round c id n s k t ≡ done r u
      → Held (λ _ v. taken id n v ≡ m) Taken r u
  unfolding reserve_round taken
  round-Held s t u r h e = grind (arith, ==-refl)

  -- reserveSem returns 0 after exactly one successful decrement of the semaphore, and -1 after none;
  -- while it retries on EINTR, it never returns -1 because of an interruption.
  pub reserve_sem-taken :
      (fuel : ℕ) (t u : Trace) (r : Reply (Unit {0}))
      → taken id n t ≡ m
      → reserve_sem fuel c id n k t ≡ done r u
      → Taken r u
  unfolding reserve_sem
  reserve_sem-taken fuel t u r h e =
      loop_done (reserve_round c id n) k (λ _ v. taken id n v ≡ m) Taken round-Held fuel tt t u r h
        e

-- A call in one of the two ways that reserving can go on.
abbrev pub Attempt : Config → ℕ → ℕ → Kernel → ℕ → Trace → Type 0
Attempt c id n k limit t =
    (k t (semop id n (negsuc 0) (sem_flg c)) ≡ ok tt)
    ⊎ ((k t (semop id n (negsuc 0) (sem_flg c)) ≡ fail eintr) × (interrupted id n t < limit))

module _ (c : Config) (id n limit : ℕ) (k : Kernel) (retry : c.bs_retry_on_eintr ≡ true)
    (attempt : (t : Trace) → Attempt c id n k limit t) where
  abbrev Fine : Unit {0} → Trace → Type 0
  Fine s t = interrupted id n t ≤ limit

  abbrev Success : Reply (Unit {0}) → Trace → Type 0
  Success r t = r ≡ ok tt

  abbrev rest : Unit {0} → Trace → ℕ
  rest s t = limit - interrupted id n t

  round_total :
      (s : Unit {0}) (t : Trace)
      → Fine s t
      → (r : Round (Unit {0}) (Reply (Unit {0}))) × (u : Trace) × (reserve_round c id n s k t
          ≡ done r u)
        × Held Fine Success r u
        × Shorter rest (rest s t) r u
  unfolding reserve_round interrupted
  round_total s t f = elim (attempt t) [
    | inl e ↦
        (leave (ok tt), (semop id n (negsuc 0) (sem_flg c), ok tt) ∷ t, ground (arith, e), refl, tt)
    | inr (e, lt) ↦ (
      next tt,
      (semop id n (negsuc 0) (sem_flg c), fail eintr) ∷ t,
      ground (arith, e, retry),
      ground (arith, lt),
      ground (arith, lt),
    )
  ]

  -- If retrying is on, the semaphore is free and the kernel interrupts at most `limit` times, reserveSem
  -- returns 0 within `limit + 1` rounds.
  pub reserve_sem_total :
      (fuel : ℕ) (t : Trace)
      → interrupted id n t ≤ limit
      → limit < fuel
      → (u : Trace) × (reserve_sem fuel c id n k t ≡ done (ok tt) u)
  unfolding reserve_sem
  reserve_sem_total fuel t f lt =
      let (r, u, e, z) =
        loop_total (reserve_round c id n) k Fine Success rest round_total fuel tt t (omega arith)
          f in
      (u, ground (arith, e, z))

-- A reservation transfers no data.
abbrev pub SameData : Trace → Trace → Type 0
SameData t v =
    ((fd : ℕ) → sent fd v ≡ sent fd t)
    × ((fd : ℕ) → received fd v ≡ received fd t)
    × ((seg : ℕ) → stored seg v ≡ stored seg t)
    × ((seg : ℕ) → stored_cnt seg v ≡ stored_cnt seg t)
    × ((seg : ℕ) → stored_blocks seg v ≡ stored_blocks seg t)

module _ (c : Config) (id n : ℕ) (k : Kernel) (t₀ : Trace) where
  abbrev Quiet : Trace → Type 0
  Quiet v = SameData t₀ v

  round-event :
      (s : Unit {0}) (t u : Trace) (r : Round (Unit {0}) (Reply (Unit {0})))
      → reserve_round c id n s k t ≡ done r u
      → u ≡ (semop id n (negsuc 0) (sem_flg c), k t (semop id n (negsuc 0) (sem_flg c))) ∷ t
  unfolding reserve_round
  round-event s t u r h = ground arith

  round-Quiet :
      (s : Unit {0}) (t u : Trace) (r : Round (Unit {0}) (Reply (Unit {0})))
      → Quiet t
      → reserve_round c id n s k t ≡ done r u
      → Held (λ _. Quiet) (λ _. Quiet) r u
  unfolding sent received stored stored_cnt stored_blocks
  round-Quiet s t u (next s') q h = subst Quiet (sym (round-event s t u (next s') h)) q
  round-Quiet s t u (leave a) q h = subst Quiet (sym (round-event s t u (leave a) h)) q

  pub reserve_sem-SameData :
      (fuel : ℕ) (u : Trace) (r : Reply (Unit {0}))
      → reserve_sem fuel c id n k t₀ ≡ done r u
      → SameData t₀ u
  unfolding reserve_sem
  reserve_sem-SameData fuel u r h =
      loop_done (reserve_round c id n) k (λ _. Quiet) (λ _. Quiet) round-Quiet fuel tt t₀ u r
        ((λ fd. refl), (λ fd. refl), (λ seg. refl), (λ seg. refl), (λ seg. refl)) h

  -- Reserving never ends the process.
  pub reserve_sem-halted :
      (fuel : ℕ) (u : Trace) (e : End) → reserve_sem fuel c id n k t₀ ≡ halted e u → e ≡ out_of_fuel
  unfolding reserve_sem
  reserve_sem-halted fuel u e h =
      loop_ends (reserve_round c id n) k (λ e. e ≡ out_of_fuel)
        (λ s t v e g. absurd (round_goes_on s t v e g)) refl fuel tt t₀ u e h
    where
      round_goes_on :
          (s : Unit {0}) (t v : Trace) (e : End) → reserve_round c id n s k t ≡ halted e v → ⊥
      round_goes_on s t v e g = ground arith

-- Reserving gives nothing back.
module _ (c : Config) (id n : ℕ) (k : Kernel) (sem m : ℕ) where
  round-given :
      (s : Unit {0}) (t u : Trace) (r : Round (Unit {0}) (Reply (Unit {0})))
      → given id sem t ≡ m
      → reserve_round c id n s k t ≡ done r u
      → Held (λ _ v. given id sem v ≡ m) (λ _ v. given id sem v ≡ m) r u
  unfolding reserve_round given
  round-given s t u r h e = ground arith

  pub reserve_sem-given :
      (fuel : ℕ) (t u : Trace) (r : Reply (Unit {0}))
      → given id sem t ≡ m
      → reserve_sem fuel c id n k t ≡ done r u
      → given id sem u ≡ m
  unfolding reserve_sem
  reserve_sem-given fuel t u r h e =
      loop_done (reserve_round c id n) k (λ _ v. given id sem v ≡ m) (λ _ v. given id sem v ≡ m)
        round-given fuel tt t u r h e
