-- ===== src/Sys/Always.antt =====
-- Properties of the trace that every action of a program keeps, however it ends, and the ways in which
-- an action ends.
use linux_unix_system_progra.Prelude.{
  ℕ, zero, suc, ◌≡◌, refl, Bool, true, false, if◌then◌else◌, Option, none, some, List, Text,
  get_elem?,
}
use linux_unix_system_progra.Sys.Run.{
  Trace, Kernel, End, Run, done, halted, M, and_then, ◌>>=◌, entry_of, arg,
}
use linux_unix_system_progra.Sys.Loop.{Round, next, leave, loop, after}

-- The trace that a run ends with.
abbrev pub trace : {A : Type 0} → Run A → Trace
trace (done a t) = t
trace (halted e t) = t

module _ (P : Trace → Type 0) (k : Kernel) where
  -- The action keeps the property.
  abbrev pub Keeps : {A : Type 0} → M A → Type 0
  Keeps m = (t : Trace) → P t → P (trace (m k t))

  bound :
      {A B : Type 0} (r : Run A) (f : A → M B)
      → P (trace r)
      → ((a : A) → Keeps (f a))
      → P (trace (and_then r f k))
  bound (done a t) f p keep = keep a t p
  bound (halted e t) f p keep = p

  pub bind-Keeps :
      {A B : Type 0} (m : M A) (f : A → M B) → Keeps m → ((a : A) → Keeps (f a)) → Keeps (m >>= f)
  bind-Keeps m f keep keep' t p = bound (m k t) f (keep t p) keep'

  pub if-Keeps :
      {A : Type 0} (b : Bool) (m n : M A) → Keeps m → Keeps n → Keeps (if b then m else n)
  if-Keeps true m n keep keep' t p = keep t p
  if-Keeps false m n keep keep' t p = keep' t p

  entry : (x : Option Text) → Keeps (entry_of x)
  entry none t p = p
  entry (some a) t p = p

  pub arg-Keeps : (argv : List Text) (i : ℕ) → Keeps (arg argv i)
  arg-Keeps argv i = entry (get_elem? argv i)

  module _ {S A : Type 0} (body : S → M (Round S A)) (keep : (s : S) → Keeps (body s)) where
    rounds :
        (n : ℕ) (r : Run (Round S A))
        → P (trace r)
        → ((s : S) → Keeps (loop n body s))
        → P (trace (after (loop n body) k r))
    unfolding after
    rounds n (done (next s) u) p ih = ih s u p
    rounds n (done (leave a) u) p ih = p
    rounds n (halted e u) p ih = p

    pub loop-Keeps : (n : ℕ) (s : S) → Keeps (loop n body s)
    unfolding loop
    loop-Keeps zero s t p = p
    loop-Keeps (suc n) s t p = rounds n (body s k t) (keep s t p) (loop-Keeps n)

-- A run that stops was stopped in a way that `P` allows, and one that returns has a result that `Q` allows.
abbrev pub Ends : {A : Type 0} → (End → Type 0) → (A → Type 0) → Run A → Type 0
Ends P Q (done a t) = Q a
Ends P Q (halted e t) = P e

module _ {A B : Type 0} (P : End → Type 0) (Q : A → Type 0) (R : B → Type 0) (f : A → M B)
    (k : Kernel) where
  and_then-Ends :
      (r : Run A)
      → Ends P Q r
      → ((a : A) (u : Trace) → Q a → Ends P R (f a k u))
      → Ends P R (and_then r f k)
  and_then-Ends (done a u) p q = q a u p
  and_then-Ends (halted e u) p q = p

  pub bind-Ends :
      (m : M A) (t : Trace)
      → Ends P Q (m k t)
      → ((a : A) (u : Trace) → Q a → Ends P R (f a k u))
      → Ends P R ((m >>= f) k t)
  bind-Ends m t p q = and_then-Ends (m k t) p q

pub if-Ends :
    {A : Type 0} (P : End → Type 0) (Q : A → Type 0) (b : Bool) (m n : M A) (k : Kernel) (t : Trace)
    → (b ≡ true → Ends P Q (m k t))
    → (b ≡ false → Ends P Q (n k t))
    → Ends P Q ((if b then m else n) k t)
if-Ends P Q true m n k t p q = p refl
if-Ends P Q false m n k t p q = q refl
