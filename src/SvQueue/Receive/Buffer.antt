-- ===== src/SvQueue/Receive/Buffer.antt =====
-- When svmsg_receive.c stays inside its buffer.
use linux_unix_system_progra.Prelude.{
  ℕ, ◌≤◌, ◌≡◌, ◌≢◌, refl, ◌⊎◌, inl, inr, [], ◌∷◌, ◌++◌, List, Text, length, drop, arith, some, ℤ,
  pos, c_string, atoi,
}
use linux_unix_system_progra.Sys.{
  IpcFlag, Trace, Kernel, End, undefined, exited, ok, halted, queue_receive, operands, loop,
  loop_ends, and_then_halted, and_then, or_die, ◌>>=◌, call, Reply, fail,
}
use linux_unix_system_progra.SvQueue.Receive.{
  max_mtext, max_bytes, Options, option_round, usage_error, show_message, receive, main,
}

-- A message that is at most as long as was asked for, and is a C string if it is not empty.
pub record Delivers (k : Kernel) : Type 0 where
  pub size_le :
      (t : Trace) (id type mtype : ℤ) (n : ℕ) (bs : Text) (flags : List IpcFlag)
      → k t (queue_receive id n type flags) ≡ ok (mtype, bs)
      → length bs ≤ n
  pub ended :
      (t : Trace) (id type mtype : ℤ) (n b : ℕ) (bs : Text) (flags : List IpcFlag)
      → k t (queue_receive id n type flags) ≡ ok (mtype, b ∷ bs)
      → (s : Text) × ((garbage : Text) → c_string (b ∷ bs ++ garbage) ≡ some s)

show-defined :
    (garbage : Text) (mtype : ℤ) (bs : Text) (k : Kernel) (t u : Trace) (e : End)
    → length bs ≤ max_mtext
    → ((bs ≡ []) ⊎ ((s : Text) × (c_string (bs ++ drop (length bs) garbage) ≡ some s)))
    → show_message garbage mtype bs k t ≡ halted e u
    → e ≡ exited 0
unfolding show_message
show-defined garbage mtype bs k t u e le (inl n) h = ground (arith, le, n, h)
show-defined garbage mtype bs k t u e le (inr (s, c)) h = ground (arith, le, c, h)

-- An end that is not undefined.
abbrev Defined : End → Type 0
Defined e = e ≢ undefined

module _ (garbage : Text) (o : Options) (prog_name : Text) (k : Kernel)
    (delivers : Delivers k) where
  take_message :
      (id : ℤ) (n : ℕ) (t u : Trace) (e : End) (r : Reply (ℤ × Text))
      → n ≤ max_mtext
      → k t (queue_receive id n o.1 o.0) ≡ r
      → and_then
          (or_die "msgrcv\n" 1 r k
            ((queue_receive id n o.1 o.0, k t (queue_receive id n o.1 o.0)) ∷ t))
          (λ m. show_message garbage m.0 m.1)
          k
        ≡ halted e u
      → Defined e
  take_message id n t u e (ok (mtype, [])) le eq h =
      let d = show-defined garbage mtype [] k _ u e (omega arith) (inl refl) h in ground (arith, d)
  take_message id n t u e (ok (mtype, b ∷ bs)) le eq h =
      let (s, c) = delivers.ended t id o.1 mtype n b bs o.0 eq in
      let l = delivers.size_le t id o.1 mtype n (b ∷ bs) o.0 eq in
      let d =
        show-defined garbage mtype (b ∷ bs) k _ u e (omega (arith, l, le))
          (inr (s, c (drop (length (b ∷ bs)) garbage))) h in
      ground (arith, d)
  take_message id n t u e (fail x) le eq h = ground arith

  receive-defined :
      (rest : List Text) (t u : Trace) (e : End)
      → max_bytes rest ≤ max_mtext
      → receive garbage o prog_name rest k t ≡ halted e u
      → Defined e
  unfolding receive usage_error
  receive-defined [] t u e le h = ground arith
  receive-defined (q ∷ []) t u e le h =
      take_message (atoi q) max_mtext t u e (k t (queue_receive (atoi q) max_mtext o.1 o.0)) le refl
        h
  receive-defined (q ∷ s ∷ []) t u e le h =
      take_message (atoi q) (max_bytes (q ∷ s ∷ [])) t u e
        (k t (queue_receive (atoi q) (max_bytes (q ∷ s ∷ [])) o.1 o.0)) le refl h
  receive-defined (q ∷ s ∷ _ ∷ _) t u e le h = ground arith

module _ (prog_name : Text) (k : Kernel) where
  round-defined :
      (o : Options) (t u : Trace) (e : End) → option_round prog_name o k t ≡ halted e u → Defined e
  unfolding option_round usage_error
  round-defined o t u e h = ground arith

-- If the queue delivers at most as many bytes as it was asked for, a message is empty or has a
-- terminator, and max-bytes is at most 1024 or is left out, then svmsg_receive.c never writes or reads
-- past its buffer: it ends with a status, or the model's fuel ends.
pub main-Defined :
    (fuel : ℕ) (garbage prog_name : Text) (args : List Text) (k : Kernel) (u : Trace) (e : End)
    → Delivers k
    → ((t : Trace) → max_bytes (k t operands) ≤ max_mtext)
    → main fuel garbage (prog_name ∷ args) k [] ≡ halted e u
    → e ≢ undefined
unfolding main
main-Defined fuel garbage p args k u e delivers le h =
    elim (and_then_halted (loop fuel (option_round p) ([], pos 0) k [])
      (λ o. call operands >>= λ rest. receive garbage o p rest) k h) [
        | inl g ↦
            loop_ends (option_round p) k Defined (round-defined p k) (λ x. ground (arith, x)) fuel
              ([], pos 0) [] u e g
        | inr (o, v, g, f) ↦
            receive-defined garbage o p k delivers (k v operands) ((operands, k v operands) ∷ v) u e
              (le v) f
      ]
