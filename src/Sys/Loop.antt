-- ===== src/Sys/Loop.antt =====
-- Loops that may break, on fuel, and the rules for their invariants.
use linux_unix_system_progra.Prelude.{ℕ, zero, suc, ◌<◌, ◌≡◌, refl, arith}
use linux_unix_system_progra.Sys.Run.{Trace, Kernel, End, out_of_fuel, Run, done, halted, M}

-- What one round does: it goes on with new variables, or leaves the loop.
pub data Round (S A : Type 0) : Type 0 where
  next : S → Round S A
  leave : A → Round S A

unfoldable pub after : {S A : Type 0} → (S → M A) → Kernel → Run (Round S A) → Run A
after rest k (halted e u) = halted e u
after rest k (done (leave a) u) = done a u
after rest k (done (next s) u) = rest s k u

unfoldable pub loop : {S A : Type 0} → ℕ → (S → M (Round S A)) → S → M A
unfolding after
loop zero body s k t = halted out_of_fuel t
loop (suc n) body s k t = let rest = loop n body in after rest k (body s k t)

abbrev pub Held :
    {S A : Type 0} → (S → Trace → Type 0) → (A → Trace → Type 0) → Round S A → Trace → Type 0
Held I D (next s) u = I s u
Held I D (leave a) u = D a u

abbrev pub Shorter : {S A : Type 0} → (S → Trace → ℕ) → ℕ → Round S A → Trace → Type 0
Shorter measure m (next s) u = measure s u < m
Shorter measure m (leave a) u = Unit {0}

module _ {S A : Type 0} (body : S → M (Round S A)) (k : Kernel) where
  module _ (I : S → Trace → Type 0) (D : A → Trace → Type 0)
      (keep : (s : S) (t u : Trace) (r : Round S A)
        → I s t
        → body s k t ≡ done r u
        → Held I D r u) where
    after_done :
        (n : ℕ) (s : S) (t : Trace) (b : Run (Round S A)) {a : A} {u : Trace}
        → I s t
        → body s k t ≡ b
        → ((s' : S) (t' : Trace) → I s' t' → loop n body s' k t' ≡ done a u → D a u)
        → after (loop n body) k b ≡ done a u
        → D a u
    unfolding after
    after_done n s t (halted e v) i eq ih h = ground arith
    after_done n s t (done (leave a) v) i eq ih h = ground (arith, keep s t v (leave a) i eq)
    after_done n s t (done (next s') v) i eq ih h = ih s' v (keep s t v (next s') i eq) h

    -- What the body keeps holds when the loop is left.
    pub loop_done :
        (n : ℕ) (s : S) (t u : Trace) (a : A) → I s t → loop n body s k t ≡ done a u → D a u
    unfolding loop
    loop_done zero s t u a i h = ground arith
    loop_done (suc n) s t u a i h =
        after_done n s t (body s k t) i refl (λ s' t' i'. loop_done n s' t' u a i') h

    module _ (E : End → Trace → Type 0)
        (stop : (s : S) (t u : Trace) (e : End) → I s t → body s k t ≡ halted e u → E e u)
        (fuel : (s : S) (t : Trace) → I s t → E out_of_fuel t) where
      after_halted :
          (n : ℕ) (s : S) (t : Trace) (b : Run (Round S A)) {e : End} {u : Trace}
          → I s t
          → body s k t ≡ b
          → ((s' : S) (t' : Trace) → I s' t' → loop n body s' k t' ≡ halted e u → E e u)
          → after (loop n body) k b ≡ halted e u
          → E e u
      unfolding after
      after_halted n s t (halted e v) i eq ih h = ground (arith, stop s t v e i eq)
      after_halted n s t (done (leave a) v) i eq ih h = ground arith
      after_halted n s t (done (next s') v) i eq ih h = ih s' v (keep s t v (next s') i eq) h

      -- Where the process ends inside the loop.
      pub loop_halted :
          (n : ℕ) (s : S) (t u : Trace) (e : End) → I s t → loop n body s k t ≡ halted e u → E e u
      unfolding loop
      loop_halted zero s t u e i h = ground (arith, fuel s t i)
      loop_halted (suc n) s t u e i h =
          after_halted n s t (body s k t) i refl (λ s' t' i'. loop_halted n s' t' u e i') h

  Held-Unit : (r : Round S A) (u : Trace) → Held (λ _ _. Unit {0}) (λ _ _. Unit {0}) r u
  Held-Unit (next s) u = tt
  Held-Unit (leave a) u = tt

  -- The process ends inside the loop as it ends in a round, or out of fuel.
  pub loop_ends :
      (P : End → Type 0)
      → ((s : S) (t u : Trace) (e : End) → body s k t ≡ halted e u → P e)
      → P out_of_fuel
      → (n : ℕ) (s : S) (t u : Trace) (e : End) → loop n body s k t ≡ halted e u
      → P e
  loop_ends P stop fuel n s t u e h =
      loop_halted (λ _ _. Unit {0}) (λ _ _. Unit {0}) (λ s t u r _ _. Held-Unit r u) (λ e _. P e)
        (λ s t u e _ g. stop s t u e g) (λ _ _ _. fuel) n s t u e tt h

  module _ (I : S → Trace → Type 0) (D : A → Trace → Type 0) (measure : S → Trace → ℕ)
      (round : (s : S) (t : Trace)
        → I s t
        → (r : Round S A) × (u : Trace) × (body s k t ≡ done r u)
          × Held I D r u
          × Shorter measure (measure s t) r u) where
    after_total :
        (n : ℕ) (m : ℕ) (b : Run (Round S A)) (r : Round S A) (v : Trace)
        → b ≡ done r v
        → Held I D r v
        → Shorter measure m r v
        → m < suc n
        → ((s' : S) (t' : Trace)
            → measure s' t' < n
            → I s' t'
            → (a : A) × (u : Trace) × (loop n body s' k t' ≡ done a u) × D a u)
        → (a : A) × (u : Trace) × (after (loop n body) k b ≡ done a u) × D a u
    unfolding after
    after_total n m b (leave a) v eq held short lt ih = (a, v, ground arith, held)
    after_total n m b (next s') v eq held short lt ih =
        let (a, u, e, d) = ih s' v (omega (arith, short, lt)) held in (a, u, ground arith, d)

    -- If each round gets through and shrinks the measure, the loop is left within the fuel.
    pub loop_total :
        (n : ℕ) (s : S) (t : Trace)
        → measure s t < n
        → I s t
        → (a : A) × (u : Trace) × (loop n body s k t ≡ done a u) × D a u
    unfolding loop
    loop_total zero s t lt i = absurd (omega arith)
    loop_total (suc n) s t lt i =
        let (r, v, eq, held, short) = round s t i in
        after_total n (measure s t) (body s k t) r v eq held short lt
          (λ s' t' lt' i'. loop_total n s' t' lt' i')
