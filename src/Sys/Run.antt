-- ===== src/Sys/Run.antt =====
-- Kernels, and the actions of a process: a trace of the calls made so far, newest first, and an end.
use linux_unix_system_progra.Prelude.{
  ℕ, String, Option, none, some, Bool, true, false, List, [], ◌∷◌, ◌==◌, Text, get_elem?, ℤ, pos,
  negsuc,
}
use linux_unix_system_progra.Sys.Calls.{Call, Answer, Reply, ok, fail, printf}

-- A call and the answer that it got.
abbrev pub Event : Type 0
Event = (c : Call) × Answer c

-- The newest event comes first.
abbrev pub Trace : Type 0
Trace = List Event

abbrev pub Kernel : Type 0
Kernel = Trace → (c : Call) → Answer c

-- How a process stops before its function returns. `replaced` is a successful exec, `aborted` a failed
-- assertion, `undefined` is what C leaves undefined, `blocked` a call that never returns, where its
-- answer can say so, and `out_of_fuel` ends a run of the model that is still going on.
pub data End : Type 0 where
  exited : ℕ → End
  replaced aborted undefined blocked out_of_fuel : End

pub data Run (A : Type 0) : Type 0 where
  done : A → Trace → Run A
  halted : End → Trace → Run A

abbrev pub M : Type 0 → Type 0
M A = Kernel → Trace → Run A

abbrev pub and_then : {A B : Type 0} → Run A → (A → M B) → Kernel → Run B
and_then (done a t) f k = f a k t
and_then (halted e t) f k = halted e t

infixl 5 ◌>>=◌ ◌>>◌
abbrev pub ◌>>=◌ : {A B : Type 0} → M A → (A → M B) → M B
◌>>=◌ m f k t = and_then (m k t) f k

abbrev pub ◌>>◌ : {A B : Type 0} → M A → M B → M B
m >> n = m >>= λ _. n

abbrev pub pure : {A : Type 0} → A → M A
pure a k t = done a t

abbrev pub halt : {A : Type 0} → End → M A
halt e k t = halted e t

abbrev pub call : (c : Call) → M (Answer c)
call c k t = done (k t c) ((c, k t c) ∷ t)

-- exit(status), where no handler is registered.
abbrev pub exit : {A : Type 0} → ℕ → M A
exit n = halt (exited n)

abbrev pub say : String → M (Unit {0})
say s = call (printf s [])

-- printf(message); exit(status);
abbrev pub die : {A : Type 0} → String → ℕ → M A
die s n = say s >> exit n

-- The common test `if (x == -1) { printf(message); exit(status); }`.
abbrev pub or_die : {A : Type 0} → String → ℕ → Reply A → M A
or_die s n (ok a) = pure a
or_die s n (fail e) = die s n

abbrev pub failed : {A : Type 0} → Reply A → Bool
failed (ok a) = false
failed (fail e) = true

-- The count that a call returned is the one asked for. -1 is none.
abbrev pub returned : Reply ℕ → ℕ → Bool
returned (ok m) n = m == n
returned (fail e) n = false

-- argv[i], which is NULL at argc; what the programs do with NULL is undefined.
abbrev pub entry_of : Option Text → M Text
entry_of none = halt End.undefined
entry_of (some a) = pure a

abbrev pub arg : List Text → ℕ → M Text
arg argv i = entry_of (get_elem? argv i)

-- The answer of a call that may block for ever; none if it never returns.
abbrev pub returning : {A : Type 0} → Option A → M A
returning none = halt blocked
returning (some a) = pure a

-- The result of a call as an `int`.
abbrev pub int_of : Reply ℕ → ℤ
int_of (ok n) = pos n
int_of (fail e) = negsuc 0

-- The same for a call that returns 0 or -1.
abbrev pub status_of : {A : Type 0} → Reply A → ℤ
status_of (ok _) = pos 0
status_of (fail e) = negsuc 0

-- assert(x != -1) on the result of a call.
abbrev pub asserted : {A : Type 0} → Reply A → M A
asserted (ok a) = pure a
asserted (fail e) = halt aborted
