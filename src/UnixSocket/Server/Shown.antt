-- ===== src/UnixSocket/Server/Shown.antt =====
-- What the server shows of a connection.
use linux_unix_system_progra.Prelude.{
  ℕ, ◌≤◌, ◌≡◌, refl, ap, sym, ◌∙◌, ◌≢◌, [], ◌∷◌, ◌++◌, Text, arith, append-nil, append_assoc,
  ==-refl, length, take-length,
}
use linux_unix_system_progra.Sys.{
  Reply, ok, fail, read, write, Trace, Kernel, done, Round, next, leave, loop, Held, loop_done,
}
use linux_unix_system_progra.Sys.View.{received, sent}
use linux_unix_system_progra.UnixSocket.Client.{buf_size, size_max}
use linux_unix_system_progra.UnixSocket.Server.{receive_round}

-- Standard output does not take 2 ^ 64 - 1 bytes at once, and a read returns at most the bytes asked
-- for.
pub record Bounded (k : Kernel) (afd : ℕ) : Type 0 where
  pub not_all : (t : Trace) (buf : Text) → k t (write 1 buf size_max) ≢ ok size_max
  pub read_le : (t : Trace) (bs : Text) → k t (read afd buf_size) ≡ ok bs → length bs ≤ buf_size

module _ (k : Kernel) (afd : ℕ) (bounded : Bounded k afd) (t₀ : Trace) where
  -- The bytes that came in since `t₀` were shown.
  abbrev Relayed : Trace → Type 0
  Relayed t = (bs : Text) × (received afd t ≡ received afd t₀ ++ bs) × (sent 1 t ≡ sent 1 t₀ ++ bs)

  relay :
      (t u : Trace) (new : Text)
      → Relayed t
      → received afd u ≡ received afd t ++ new
      → sent 1 u ≡ sent 1 t ++ new
      → Relayed u
  relay t u new (bs, r, s) er es = (
    bs ++ new,
    er ∙ ap (λ x. x ++ new) r ∙ append_assoc (received afd t₀) bs new,
    es ∙ ap (λ x. x ++ new) s ∙ append_assoc (sent 1 t₀) bs new,
  )

  abbrev news : Reply Text → Text
  news (ok bs) = bs
  news (fail e) = []

  round-news :
      (x : Reply Text) (buf : Text) (t u : Trace) (r : Round Text Text)
      → k t (read afd buf_size) ≡ x
      → receive_round afd buf k t ≡ done r u
      → (received afd u ≡ received afd t ++ news x) × (sent 1 u ≡ sent 1 t ++ news x)
  unfolding receive_round received sent
  round-news (ok []) buf t u r eq h = ground (arith, eq, append-nil (sent 1 t))
  round-news (ok (b ∷ bs)) buf t u r eq h =
      ground (arith, eq, take-length (b ∷ bs), bounded.read_le t (b ∷ bs) eq, ==-refl afd)
  round-news (fail e) buf t u r eq h = ground (
    arith,
    eq,
    append-nil (sent 1 t),
    append-nil (received afd t),
    bounded.not_all ((read afd buf_size, fail e) ∷ t) buf,
  )

  held : (r : Round Text Text) (u : Trace) → Relayed u → Held (λ _. Relayed) (λ _. Relayed) r u
  held (next s) u c = c
  held (leave a) u c = c

  round-Relayed :
      (buf : Text) (t u : Trace) (r : Round Text Text)
      → Relayed t
      → receive_round afd buf k t ≡ done r u
      → Held (λ _. Relayed) (λ _. Relayed) r u
  round-Relayed buf t u r c h =
      let (a, b) = round-news (k t (read afd buf_size)) buf t u r refl h in
      held r u (relay t u (news (k t (read afd buf_size))) c a b)

  -- If standard output never takes 2 ^ 64 - 1 bytes and reads are bounded, then whenever the loop of a
  -- connection is left, standard output has grown by exactly the bytes that came in on the connection,
  -- also when reads failed in between.
  pub receive-Relayed :
      (fuel : ℕ) (buf b : Text) (u : Trace)
      → loop fuel (receive_round afd) buf k t₀ ≡ done b u
      → (bs : Text) × (received afd u ≡ received afd t₀ ++ bs) × (sent 1 u ≡ sent 1 t₀ ++ bs)
  receive-Relayed fuel buf b u h =
      loop_done (receive_round afd) k (λ _. Relayed) (λ _. Relayed) round-Relayed fuel buf t₀ u b
        ([], sym (append-nil (received afd t₀)), sym (append-nil (sent 1 t₀))) h
