-- ===== src/Fifo/Client/Outcome.antt =====
-- How a run of the client ends.
use linux_unix_system_progra.Prelude.{ℕ, inl, inr, ◌≤◌, ◌≡◌, List, [], ◌∷◌, Text, arith, length}
use linux_unix_system_progra.Sys.{
  Reply, ok, fail, read, unlink, Trace, Kernel, End, exited, done, halted, run_cases,
}
use linux_unix_system_progra.Fifo.Wire.{Request, response_size}
use linux_unix_system_progra.Fifo.Client.{conclude, ask}

abbrev pub bytes_read : Reply Text → ℕ
bytes_read (ok bs) = length bs
bytes_read (fail e) = 0

-- A read returns at most the bytes asked for.
pub record ReadsBounded (k : Kernel) : Type 0 where
  pub read_le : (t : Trace) (fd n : ℕ) → bytes_read (k t (read fd n)) ≤ n

-- The names that were given to unlink, the latest first.
unfoldable pub removals : Trace → List Text
removals [] = []
removals ((unlink name, _) ∷ t) = name ∷ removals t
removals (_ ∷ t) = removals t

conclude-fails :
    (name : Text) (got : Reply Text) (k : Kernel) (t u : Trace) (x : Unit {0})
    → bytes_read got ≤ response_size
    → conclude name got k t ≡ done x u
    → ⊥
unfolding conclude
conclude-fails name (ok bs) k t u x b h = ground arith
conclude-fails name (fail e) k t u x b h = ground arith

conclude-removals :
    (name : Text) (got : Reply Text) (k : Kernel) (t u : Trace) (e : End)
    → conclude name got k t ≡ halted e u
    → (e ≡ exited 1) × (removals u ≡ name ∷ removals t)
unfolding conclude removals
conclude-removals name got k t u e h = ground arith

ask-removals :
    (name : Text) (fd : ℕ) (req : Request) (k : Kernel) (t u : Trace) (e : End)
    → ask name fd req k t ≡ halted e u
    → (e ≡ exited 1) × (removals u ≡ name ∷ removals t)
unfolding ask removals
ask-removals name fd req k t u e h = grind (arith, conclude-removals)

-- If reads return at most the bytes asked for, then from the moment it sends its request on, the client
-- ends with status 1, whatever the server answers, and it has called unlink exactly once more, on its
-- FIFO: it compares the size of a reply with that of a request, so that it accepts none.
pub ask_fails :
    (name : Text) (fd : ℕ) (req : Request) (k : Kernel) (t : Trace)
    → ReadsBounded k
    → (u : Trace) × (ask name fd req k t ≡ halted (exited 1) u) × (removals u ≡ name ∷ removals t)
unfolding ask
ask_fails name fd req k t bounded = elim (run_cases (ask name fd req k t)) [
  | inl (x, u, h) ↦ absurd (grind (arith, conclude-fails, bounded.read_le))
  | inr (e, u, h) ↦ let (a, b) = ask-removals name fd req k t u e h in (u, ground (arith, h, a), b)
]
