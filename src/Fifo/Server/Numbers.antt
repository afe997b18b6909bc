-- ===== src/Fifo/Server/Numbers.antt =====
-- The sequence numbers that the server hands out, and the descriptors that it keeps.
use linux_unix_system_progra.Prelude.{ℕ, ◌+◌, ◌%◌, ◌≡◌, false, [], ◌∷◌, Text, arith, inl, inr}
use linux_unix_system_progra.Sys.{
  ok, o_wronly, open_file, read, write, Trace, Kernel, End, exited, done, halted, and_then_halted,
  Round, loop, Held, loop_halted,
}
use linux_unix_system_progra.Sys.View.{closed}
use linux_unix_system_progra.Fifo.Wire.{word, decode_request, encode_response}
use linux_unix_system_progra.Fifo.Server.{serve_round, set_up, main}

-- The bytes of the latest successful read.
latest : Trace → Text
latest [] = []
latest ((read _ _, ok bs) ∷ t) = bs
latest (_ ∷ t) = latest t

-- The numbers granted so far: each FIFO that was opened for writing grants what the request read
-- before it asks for.
pub total : Trace → ℕ
unfolding latest
total [] = 0
total ((open_file _ (o_wronly ∷ []) _, ok _) ∷ t) =
    (total t + (decode_request (latest t)).seq_len) % word
total (_ ∷ t) = total t

-- Every message that was written is the total at that time.
abbrev pub Honest : Trace → Type 0
Honest [] = Unit
Honest ((write _ bs _, _) ∷ t) = (bs ≡ encode_response (total t)) × Honest t
Honest (_ ∷ t) = Honest t

abbrev Ledger : ℕ → Trace → Type 0
Ledger seq_num t = (seq_num ≡ total t) × Honest t

module _ (k : Kernel) (server_fd : ℕ) where
  -- No round ends the process, and none leaves the loop.
  round-goes_on :
      (seq_num : ℕ) (t u : Trace) (e : End) → serve_round server_fd seq_num k t ≡ halted e u → ⊥
  unfolding serve_round
  round-goes_on seq_num t u e h = ground arith

  round-closed :
      (fd seq_num : ℕ) (t u : Trace) (r : Round ℕ (Unit {0}))
      → closed fd t ≡ false
      → serve_round server_fd seq_num k t ≡ done r u
      → Held (λ _ v. closed fd v ≡ false) (λ _ v. closed fd v ≡ false) r u
  unfolding serve_round closed
  round-closed fd seq_num t u r c h = ground arith

  serve-closed :
      (fuel fd : ℕ) (t u : Trace) (e : End)
      → closed fd t ≡ false
      → loop fuel (serve_round server_fd) 0 k t ≡ halted e u
      → closed fd u ≡ false
  serve-closed fuel fd t u e c h =
      loop_halted (serve_round server_fd) k (λ _ v. closed fd v ≡ false)
        (λ _ v. closed fd v ≡ false) (round-closed fd) (λ e v. closed fd v ≡ false)
        (λ s t u e _ g. absurd (round-goes_on s t u e g)) (λ s t c. c) fuel 0 t u e c h

set_up-Ledger :
    (fd server_fd : ℕ) (k : Kernel) (u : Trace)
    → set_up k [] ≡ done server_fd u
    → Ledger 0 u × (closed fd u ≡ false)
unfolding set_up total decode_request closed
set_up-Ledger fd server_fd k u h = ground arith

set_up-Honest :
    (k : Kernel) (u : Trace) (e : End) (fd : ℕ)
    → set_up k [] ≡ halted e u
    → Honest u × (e ≡ exited 1) × (closed fd u ≡ false)
unfolding set_up closed
set_up-Honest k u e fd h = ground arith

-- The server closes no descriptor: those of the client FIFOs that it opened all stay open.
pub main-closed :
    (k : Kernel) (fuel fd : ℕ) (u : Trace) (e : End)
    → main fuel k [] ≡ halted e u
    → closed fd u ≡ false
unfolding main
main-closed k fuel fd u e h =
    elim (and_then_halted (set_up k []) (λ fd. loop fuel (serve_round fd) 0) k h) [
      | inl g ↦ (set_up-Honest k u e fd g).2
      | inr (s, v, g, f) ↦ serve-closed k s fuel fd v u e (set_up-Ledger fd s k v g).1 f
    ]
