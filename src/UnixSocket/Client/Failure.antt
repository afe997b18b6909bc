-- ===== src/UnixSocket/Client/Failure.antt =====
-- A failing input of us_xfr_cl.c, and what a finished transfer sent.
use linux_unix_system_progra.Prelude.{
  ℕ, zero, suc, ◌≤◌, ◌≡◌, refl, ◌≢◌, [], ◌∷◌, Text, arith, take-length, append-nil, length,
}
use linux_unix_system_progra.Sys.{
  Errno, Reply, ok, fail, read, write, Trace, Kernel, End, exited, out_of_fuel, done, halted, Round,
  loop, Held, loop_done,
}
use linux_unix_system_progra.Sys.View.{received, sent}
use linux_unix_system_progra.UnixSocket.Client.{buf_size, size_max, on_read, send_round}

-- From now on reads of standard input fail, and so do writes of more bytes than the buffer has.
pub record Broken (k : Kernel) (sfd : ℕ) : Type 0 where
  pub errno : Errno
  pub read_fails : (t : Trace) → k t (read 0 buf_size) ≡ fail errno
  pub write_fails : (t : Trace) (buf : Text) → k t (write sfd buf size_max) ≡ fail errno

-- When reads of standard input fail, and so do writes of 2 ^ 64 - 1 bytes, the program does not
-- notice: its loop goes on for any number of rounds, because -1 counts as the number of bytes read
-- and as the number written.
pub loop-endless :
    (n sfd : ℕ) (buf : Text) (k : Kernel) (t : Trace)
    → Broken k sfd
    → (u : Trace) × (loop n (send_round sfd) buf k t ≡ halted out_of_fuel u)
unfolding send_round loop
loop-endless zero sfd buf k t b = (t, refl)
loop-endless (suc n) sfd buf k t b =
    let one : Trace = (read 0 buf_size, fail b.errno) ∷ t in
    let two : Trace = (write sfd buf size_max, fail b.errno) ∷ one in
    let (u, e) = loop-endless n sfd buf k two b in
    (u, ground (arith, b.read_fails t, b.write_fails one buf, e))

-- No write takes 2 ^ 64 - 1 bytes, and no read returns more than it was asked for.
pub record Bounded (k : Kernel) (sfd : ℕ) : Type 0 where
  pub not_all : (t : Trace) (buf : Text) → k t (write sfd buf size_max) ≢ ok size_max
  pub read_le : (t : Trace) (bs : Text) → k t (read 0 buf_size) ≡ ok bs → length bs ≤ buf_size

module _ (k : Kernel) (sfd : ℕ) (bounded : Bounded k sfd) where
  abbrev Sent : Text → Trace → Type 0
  Sent buf t = sent sfd t ≡ received 0 t

  on_read-Sent :
      (x : Reply Text) (buf : Text) (t u : Trace) (r : Round Text (Unit {0}))
      → Sent buf t
      → k t (read 0 buf_size) ≡ x
      → on_read sfd buf x k ((read 0 buf_size, x) ∷ t) ≡ done r u
      → Held Sent (λ _ v. sent sfd v ≡ received 0 v) r u
  unfolding on_read sent received
  on_read-Sent (ok []) buf t u r c e h = grind (arith, append-nil)
  on_read-Sent (ok (b ∷ bs)) buf t u r c e h =
      grind (arith, take-length, bounded.read_le t (b ∷ bs) e)
  on_read-Sent (fail x) buf t u r c e h =
      grind (arith, bounded.not_all ((read 0 buf_size, fail x) ∷ t) buf)

  round-Sent :
      (buf : Text) (t u : Trace) (r : Round Text (Unit {0}))
      → Sent buf t
      → send_round sfd buf k t ≡ done r u
      → Held Sent (λ _ v. sent sfd v ≡ received 0 v) r u
  unfolding send_round
  round-Sent buf t u r c h = on_read-Sent (k t (read 0 buf_size)) buf t u r c refl h

  round-exit :
      (buf : Text) (t u : Trace) (e : End) → send_round sfd buf k t ≡ halted e u → e ≡ exited 1
  unfolding send_round
  round-exit buf t u e h = ground arith

  -- If no write takes 2 ^ 64 - 1 bytes and a read returns at most the bytes asked for, then whenever
  -- the loop of us_xfr_cl.c is left, the socket has taken exactly the bytes that standard input
  -- gave, if that was so before, also when reads failed in between.
  pub loop-sent :
      (fuel : ℕ) (buf : Text) (t u : Trace) (x : Unit {0})
      → sent sfd t ≡ received 0 t
      → loop fuel (send_round sfd) buf k t ≡ done x u
      → sent sfd u ≡ received 0 u
  loop-sent fuel buf t u x c h =
      loop_done (send_round sfd) k Sent (λ _ v. sent sfd v ≡ received 0 v) round-Sent fuel buf t u x
        c h
