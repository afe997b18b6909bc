-- ===== src/SvQueue/Send/Bounds.antt =====
-- What svmsg_send.c hands to the queue.
use linux_unix_system_progra.Prelude.{
  ℕ, ◌+◌, ◌≤◌, ◌≡◌, inl, inr, [], ◌∷◌, ◌++◌, List, Text, length, arith, length-take, length-append,
}
use linux_unix_system_progra.Sys.{
  IpcFlag, Trace, Kernel, End, done, halted, queue_send, Round, loop, Held, loop_done, loop_halted,
  and_then_halted, ◌>>=◌, call, operands,
}
use linux_unix_system_progra.SvQueue.Send.{
  max_mtext, option_round, usage_error, message, send, main,
}

-- Every message that was given to msgsnd fits into the buffer, and has the size that it was given with.
unfoldable pub SendsFit : Trace → Type 0
SendsFit [] = Unit
SendsFit ((queue_send _ _ bs n _, _) ∷ t) = (length bs ≡ n) × (n ≤ max_mtext) × SendsFit t
SendsFit (_ ∷ t) = SendsFit t

message-fits :
    (rest : List Text) (k : Kernel) (t u : Trace) (m : Text × ℕ)
    → SendsFit t
    → message rest k t ≡ done m u
    → (length m.0 ≡ m.1) × (m.1 ≤ max_mtext) × SendsFit u
unfolding message SendsFit
message-fits [] k t u m c h = ground arith
message-fits (a ∷ []) k t u m c h = ground arith
message-fits (a ∷ b ∷ []) k t u m c h = ground arith
message-fits (a ∷ b ∷ text ∷ _) k t u m c h =
    ground (arith, length-take (length text + 1) (text ++ 0 ∷ []), length-append text (0 ∷ []))

message-stops :
    (rest : List Text) (k : Kernel) (t u : Trace) (e : End)
    → SendsFit t
    → message rest k t ≡ halted e u
    → SendsFit u
unfolding message SendsFit
message-stops rest k t u e c h = ground arith

send-fits :
    (flags : List IpcFlag) (rest : List Text) (k : Kernel) (t u : Trace) (e : End)
    → SendsFit t
    → send flags rest k t ≡ halted e u
    → SendsFit u
unfolding send message SendsFit
send-fits flags [] k t u e c h = ground arith
send-fits flags (a ∷ []) k t u e c h = ground arith
send-fits flags (a ∷ b ∷ []) k t u e c h = ground arith
send-fits flags (a ∷ b ∷ text ∷ []) k t u e c h =
    ground (arith, length-take (length text + 1) (text ++ 0 ∷ []), length-append text (0 ∷ []))
send-fits flags (a ∷ b ∷ text ∷ _ ∷ _) k t u e c h = ground arith

module _ (k : Kernel) (prog_name : Text) where
  round-fits :
      (flags : List IpcFlag) (t u : Trace) (r : Round (List IpcFlag) (List IpcFlag))
      → SendsFit t
      → option_round prog_name flags k t ≡ done r u
      → Held (λ _. SendsFit) (λ _. SendsFit) r u
  unfolding option_round SendsFit
  round-fits flags t u r c h = ground arith

  round-stops :
      (flags : List IpcFlag) (t u : Trace) (e : End)
      → SendsFit t
      → option_round prog_name flags k t ≡ halted e u
      → SendsFit u
  unfolding option_round usage_error SendsFit
  round-stops flags t u e c h = ground arith

-- However svmsg_send.c ends, whatever its options and operands, every message that it gave to msgsnd
-- was at most as long as its buffer of 1024 bytes, and had exactly the size that it was given with.
pub main-SendsFit :
    (fuel : ℕ) (argv : List Text) (k : Kernel) (u : Trace) (e : End)
    → main fuel argv k [] ≡ halted e u
    → SendsFit u
unfolding main SendsFit
main-SendsFit fuel [] k u e h = ground arith
main-SendsFit fuel (p ∷ ps) k u e h =
    elim (and_then_halted (loop fuel (option_round p) [] k [])
      (λ flags. call operands >>= λ rest. send flags rest) k h) [
        | inl g ↦
            loop_halted (option_round p) k (λ _. SendsFit) (λ _. SendsFit) (round-fits k p)
              (λ _. SendsFit) (round-stops k p) (λ _ _ c. c) fuel [] [] u e tt g
        | inr (flags, v, g, f) ↦
            send-fits flags (k v operands) k ((operands, k v operands) ∷ v) u e
              (loop_done (option_round p) k (λ _. SendsFit) (λ _. SendsFit) (round-fits k p) fuel []
                [] v flags tt g)
              f
      ]
