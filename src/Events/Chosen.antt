-- ===== src/Events/Chosen.antt =====
-- How these programs may end: exit with the status 0 or 1, or a call that blocks for ever.
use linux_unix_system_progra.Prelude.{String, ◌≡◌, ◌⊎◌, refl, inl, inr, Option, none, some}
use linux_unix_system_progra.Sys.{
  Kernel, Trace, End, exited, Reply, ok, fail, blocked, or_die, returning, Ends,
}

-- The end is none that C leaves undefined.
abbrev pub Chosen : End → Type 0
Chosen e = (e ≡ exited 0) ⊎ (e ≡ exited 1) ⊎ (e ≡ blocked)

abbrev pub Any : {A : Type 0} → A → Type 0
Any a = Unit

pub or_die-Ends :
    {A : Type 0} (s : String) (x : Reply A) (k : Kernel) (t : Trace)
    → Ends Chosen Any (or_die s 1 x k t)
or_die-Ends s (ok a) k t = tt
or_die-Ends s (fail e) k t = inr (inl refl)

pub returning-Ends :
    {A : Type 0} (x : Option A) (k : Kernel) (t : Trace) → Ends Chosen Any (returning x k t)
returning-Ends none k t = inr (inr refl)
returning-Ends (some a) k t = tt
