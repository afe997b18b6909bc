-- ===== src/Sys/Bind.antt =====
-- What a finished sequence says of its parts.
use linux_unix_system_progra.Prelude.{◌≡◌, refl, subst₂, ◌⊎◌, inl, inr, arith}
use linux_unix_system_progra.Sys.Run.{Trace, Kernel, End, Run, done, halted, M, and_then, ◌>>=◌}

module _ {A B : Type 0} where
  pub and_then_done :
      (r : Run A) (f : A → M B) (k : Kernel) {b : B} {u : Trace}
      → and_then r f k ≡ done b u
      → (a : A) × (v : Trace) × (r ≡ done a v) × (f a k v ≡ done b u)
  and_then_done (done a v) f k h = (a, v, refl, h)
  and_then_done (halted e v) f k h = ground arith

  pub and_then_halted :
      (r : Run A) (f : A → M B) (k : Kernel) {e : End} {u : Trace}
      → and_then r f k ≡ halted e u
      → (r ≡ halted e u) ⊎ ((a : A) × (v : Trace) × (r ≡ done a v) × (f a k v ≡ halted e u))
  and_then_halted (done a v) f k h = inr (a, v, refl, h)
  and_then_halted (halted e' v) f k h = inl (ground arith)

  pub bind_done :
      (m : M A) (f : A → M B) (k : Kernel) (t : Trace) {b : B} {u : Trace}
      → (m >>= f) k t ≡ done b u
      → (a : A) × (v : Trace) × (m k t ≡ done a v) × (f a k v ≡ done b u)
  bind_done m f k t h = and_then_done (m k t) f k h

  pub bind_halted :
      (m : M A) (f : A → M B) (k : Kernel) (t : Trace) {e : End} {u : Trace}
      → (m >>= f) k t ≡ halted e u
      → (m k t ≡ halted e u) ⊎ ((a : A) × (v : Trace) × (m k t ≡ done a v) × (f a k v ≡ halted e u))
  bind_halted m f k t h = and_then_halted (m k t) f k h

-- What holds of one description of a finished run holds of the other.
pub transfer :
    {A : Type 0} (P : A → Trace → Type 0) {a b : A} {u v : Trace}
    → done a u ≡ done b v
    → P a u
    → P b v
transfer P e p = subst₂ P (ground arith) (ground arith) p

-- A run is finished in one of two ways.
pub run_cases :
    {A : Type 0} (r : Run A)
    → ((a : A) × (u : Trace) × (r ≡ done a u)) ⊎ ((e : End) × (u : Trace) × (r ≡ halted e u))
run_cases (done a u) = inl (a, u, refl)
run_cases (halted e u) = inr (e, u, refl)
