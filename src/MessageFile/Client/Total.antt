-- ===== src/MessageFile/Client/Total.antt =====
-- The figures that the client reports.
use linux_unix_system_progra.Prelude.{
  ℕ, suc, ◌+◌, ◌≡◌, refl, ◌≢◌, inl, inr, List, [], ◌∷◌, ◌++◌, Text, arith, ◌==◌, ==-refl, pos,
  Bool-cases, length,
}
use linux_unix_system_progra.Sys.{
  Reply, ok, fail, num, printf, msgrcv, Trace, Kernel, End, exited, done, halted, and_then_halted,
  Round, loop, Held, loop_done, loop_ends,
}
use linux_unix_system_progra.Sys.View.{accepted, sizes}
use linux_unix_system_progra.MessageFile.Protocol.{resp_mt_failure, resp_msg_size}
use linux_unix_system_progra.MessageFile.Client.{
  remove_queue, quit, Progress, receive_round, report, receive_file,
}

-- The pairs of numbers that were printed, the latest first.
pub figures : Trace → List (ℕ × ℕ)
figures [] = []
figures ((printf _ (num a ∷ num b ∷ []), _) ∷ t) = (a, b) ∷ figures t
figures (_ ∷ t) = figures t

pub count : List (ℕ × Text) → ℕ
count [] = 0
count (_ ∷ l) = suc (count l)

sizes-snoc : (l : List (ℕ × Text)) (m : ℕ × Text) → sizes (l ++ m ∷ []) ≡ sizes l + length m.1
unfolding sizes
sizes-snoc [] m = omega arith
sizes-snoc ((ty, bs) ∷ l) m = omega (arith, sizes-snoc l m)

count-snoc : (l : List (ℕ × Text)) (m : ℕ × Text) → count (l ++ m ∷ []) ≡ count l + 1
unfolding count
count-snoc [] m = refl
count-snoc (x ∷ l) m = omega (arith, count-snoc l m)

module _ (id : ℕ) (k : Kernel) where
  abbrev Counted : Progress → Trace → Type 0
  Counted s t =
      (s.num_total ≡ sizes (accepted id t))
      × (s.num_msgs ≡ count (accepted id t))
      × (figures t ≡ [])

  round-Counted :
      (s : Progress) (t u : Trace) (r : Round Progress Progress)
      → Counted s t
      → receive_round id s k t ≡ done r u
      → Held Counted Counted r u
  unfolding receive_round quit remove_queue accepted figures
  round-Counted s t u r c h = grind (arith, ==-refl, sizes-snoc, count-snoc)

  quit-halted :
      (n : ℕ) (t u : Trace) (e : End)
      → quit {A = Unit {0}} id n k t ≡ halted e u
      → (e ≡ exited n) × (accepted id u ≡ accepted id t) × (figures u ≡ figures t)
  unfolding quit remove_queue accepted figures
  quit-halted n t u e h = ground arith

  round-exits :
      (s : Progress) (t u : Trace) (e : End) → receive_round id s k t ≡ halted e u → e ≡ exited 1
  unfolding receive_round quit remove_queue
  round-exits s t u e h = ground arith

  report-figures :
      (s : Progress) (t u : Trace) (e : End)
      → Counted s t
      → report id s k t ≡ halted e u
      → figures u ≡ (sizes (accepted id u), count (accepted id u)) ∷ []
  unfolding report figures accepted
  report-figures s t u e c h =
      let line : Trace =
        (printf "Received %ld bytes (%d messages)\n" (num s.num_total ∷ num s.num_msgs ∷ []), tt)
        ∷ t in
      let (_, a, f) = quit-halted 0 line u e h in ground (arith, a, f)

  on_first :
      (got : Reply (ℕ × Text)) (fuel : ℕ) (u : Trace)
      → k [] (msgrcv id (pos resp_msg_size) (pos 0) []) ≡ got
      → receive_file fuel id k [] ≡ halted (exited 0) u
      → figures u ≡ (sizes (accepted id u), count (accepted id u)) ∷ []
  unfolding receive_file quit remove_queue accepted figures sizes count
  on_first (fail e) fuel u eq h = ground (arith, eq)
  on_first (ok m) fuel u eq h = elim (Bool-cases (m.0 == resp_mt_failure)) [
    | inl bad ↦ ground (arith, eq, bad)
    | inr good ↦
        let t : Trace = (msgrcv id (pos resp_msg_size) (pos 0) [], ok m) ∷ [] in
        let s : Progress = record { mtype = m.0; num_total = length m.1; num_msgs = 1 } in
        let start : Counted s t = grind (arith, ==-refl) in
        elim (and_then_halted (loop fuel (receive_round id) s k t) (λ s. report id s) k
          (simp (eq, good) at h)) [
            | inl g ↦ absurd (
                loop_ends (receive_round id) k (λ e. e ≢ exited 0)
                  (λ s t v e g. ground (arith, round-exits s t v e g)) (λ e. ground (arith, e)) fuel
                  s t u (exited 0) g refl)
            | inr (s', v, g, f) ↦
                report-figures s' v u (exited 0)
                  (loop_done (receive_round id) k Counted Counted round-Counted fuel s t v s' start
                    g)
                  f
          ]
  ]

  -- If the client exits with status 0 once it has asked, it printed one pair of numbers: the bytes in
  -- all messages that it took from its queue, the one that ends the file included, and how many
  -- messages these were.
  pub receive_file-figures :
      (fuel : ℕ) (u : Trace)
      → receive_file fuel id k [] ≡ halted (exited 0) u
      → figures u ≡ (sizes (accepted id u), count (accepted id u)) ∷ []
  receive_file-figures fuel u h =
      on_first (k [] (msgrcv id (pos resp_msg_size) (pos 0) [])) fuel u refl h
