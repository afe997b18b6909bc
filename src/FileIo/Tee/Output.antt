-- ===== src/FileIo/Tee/Output.antt =====
-- What tee.c sends to its two targets.
use linux_unix_system_progra.Prelude.{
  ◌⊎◌, inl, inr, Bool-cases, ℕ, ◌≡◌, sym, ◌∙◌, ◌≢◌, List, [], Text, arith, take-length, append-nil,
  ◌==◌,
}
use linux_unix_system_progra.Sys.{
  Reply, Trace, Kernel, done, and_then_done, ◌>>=◌, Round, next, leave, loop, Held, loop_done,
}
use linux_unix_system_progra.Sys.View.{received, sent}
use linux_unix_system_progra.FileIo.Tee.{tee_round, main, open_target, finish}

tee_round-sent :
    (fd : ℕ) (k : Kernel) (s : Unit {0}) (t u : Trace) (r : Round (Unit {0}) (Reply (Unit {0})))
    → fd ≢ 1
    → (sent fd t ≡ received 0 t) × (sent 1 t ≡ received 0 t)
    → tee_round fd s k t ≡ done r u
    → (sent fd u ≡ received 0 u) × (sent 1 u ≡ received 0 u)
unfolding tee_round sent received
tee_round-sent fd k s t u r ne c h = grind (arith, take-length, append-nil)

open_target-sent :
    (argv : List Text) (fd g : ℕ) (k : Kernel) (t u : Trace)
    → open_target argv k t ≡ done fd u
    → (sent g u ≡ sent g t) × (received 0 u ≡ received 0 t)
unfolding open_target sent received
open_target-sent argv fd g k t u h = ground arith

finish-sent :
    (fd g n : ℕ) (last : Reply (Unit {0})) (k : Kernel) (t u : Trace)
    → finish fd last k t ≡ done n u
    → (n ≡ 0) × (sent g u ≡ sent g t) × (received 0 u ≡ received 0 t)
unfolding finish sent received
finish-sent fd g n last k t u h = ground arith

abbrev Even : ℕ → Trace → Type 0
Even fd t = (sent fd t ≡ received 0 t) × (sent 1 t ≡ received 0 t)

round-Held :
    (fd : ℕ) (k : Kernel) (s : Unit {0}) (t u : Trace) (r : Round (Unit {0}) (Reply (Unit {0})))
    → fd ≢ 1
    → Even fd t
    → tee_round fd s k t ≡ done r u
    → Held (λ _. Even fd) (λ _. Even fd) r u
round-Held fd k s t u (next s') ne c h = tee_round-sent fd k s t u (next s') ne c h
round-Held fd k s t u (leave a) ne c h = tee_round-sent fd k s t u (leave a) ne c h

-- Whenever tee.c returns, it returns 0, and the file that it opened (by either form of the command,
-- if it is not standard output itself) and standard output have both taken exactly the bytes that
-- standard input gave.
pub main-teed :
    (fuel n : ℕ) (argv : List Text) (k : Kernel) (u : Trace)
    → main fuel argv k [] ≡ done n u
    → (n ≡ 0)
      × (fd : ℕ) × (v : Trace) × (open_target argv k [] ≡ done fd v)
      × ((fd ≡ 1) ⊎ ((sent fd u ≡ received 0 u) × (sent 1 u ≡ received 0 u)))
unfolding main sent received
main-teed fuel n argv k u h =
    let (fd, v, e, f) =
      and_then_done (open_target argv k [])
        (λ fd. loop fuel (tee_round fd) tt >>= λ last. finish fd last) k h in
    let (last, w, g, p) =
      and_then_done (loop fuel (tee_round fd) tt k v) (λ last. finish fd last) k f in
    let (z, a, r) = finish-sent fd fd n last k w u p in
    let (_, b, _) = finish-sent fd 1 n last k w u p in
    (
      z,
      fd,
      v,
      e,
      elim (Bool-cases (fd == 1)) [
        | inl same ↦ inl (ground (arith, same))
        | inr other ↦
            let both =
              loop_done (tee_round fd) k (λ _. Even fd) (λ _. Even fd)
                (λ s t t' r' c. round-Held fd k s t t' r' (ground (arith, other)) c) fuel tt v w
                last (open_both argv fd k v e) g in
            inr (a ∙ both.0 ∙ sym r, b ∙ both.1 ∙ sym r)
      ],
    )
  where
    open_both :
        (argv : List Text) (fd : ℕ) (k : Kernel) (v : Trace)
        → open_target argv k [] ≡ done fd v
        → Even fd v
    open_both argv fd k v e =
        ground (arith, open_target-sent argv fd fd k [] v, open_target-sent argv fd 1 k [] v)
