-- ===== src/Datagram/EchoServer/Silence.antt =====
-- Why the server echoes nothing.
use linux_unix_system_progra.Prelude.{
  if◌then◌else◌, int_eq, ℕ, ◌+◌, ◌≡◌, refl, ◌⊎◌, inl, inr, negsuc, [], ◌∷◌, arith,
}
use linux_unix_system_progra.Sys.{
  sendto, Trace, Kernel, End, exited, out_of_fuel, done, halted, and_then_halted, and_then_done,
  run_cases, die, Round, loop, Held, loop_halted,
}
use linux_unix_system_progra.Daemon.{become_daemon}
use linux_unix_system_progra.Daemon.StdFds.{AllClosed, become_daemon-fails}
use linux_unix_system_progra.Daemon.Detach.{become_daemon-halted}
use linux_unix_system_progra.Datagram.EchoServer.{serve_round, serve, main}

-- Every datagram that the process sent from here on was empty.
unfoldable pub sizes_sent : Trace → ℕ
sizes_sent [] = 0
sizes_sent ((sendto _ _ n _, _) ∷ t) = n + sizes_sent t
sizes_sent (_ ∷ t) = sizes_sent t

module _ (fd : ℕ) (k : Kernel) (n : ℕ) where
  round-empty :
      (s : Unit {0}) (t u : Trace) (r : Round (Unit {0}) (Unit {0}))
      → sizes_sent t ≡ n
      → serve_round fd s k t ≡ done r u
      → Held (λ _ v. sizes_sent v ≡ n) (λ _ v. sizes_sent v ≡ n) r u
  unfolding serve_round sizes_sent
  round-empty s t u r c h = ground arith

  round-goes_on : (s : Unit {0}) (t u : Trace) (e : End) → serve_round fd s k t ≡ halted e u → ⊥
  unfolding serve_round
  round-goes_on s t u e h = ground arith

  -- However long the loop of the echo server runs, and whatever comes in, it has sent no byte: each
  -- answer has the length 0, which is the value of a comparison and not the count of the bytes.
  pub loop-silent :
      (fuel : ℕ) (t u : Trace) (e : End)
      → sizes_sent t ≡ n
      → loop fuel (serve_round fd) tt k t ≡ halted e u
      → (e ≡ out_of_fuel) × (sizes_sent u ≡ n)
  loop-silent fuel t u e c h =
      loop_halted (serve_round fd) k (λ _ v. sizes_sent v ≡ n) (λ _ v. sizes_sent v ≡ n) round-empty
        (λ e v. (e ≡ out_of_fuel) × (sizes_sent v ≡ n))
        (λ s t u e _ g. absurd (round-goes_on s t u e g)) (λ s t c. (refl, c)) fuel tt t u e c h

module _ (k : Kernel) (limit null_fd fuel : ℕ) (closed : AllClosed k limit null_fd) where
  ends : (u : Trace) (e : End) → main fuel k [] ≡ halted e u → (e ≡ exited 0) ⊎ (e ≡ exited 1)
  unfolding main
  ends u e h =
      elim (and_then_halted (become_daemon 0 k [])
        (λ status. if int_eq status (negsuc 0) then die "becomeDaemon\n" 1 else serve fuel) k h) [
          | inl g ↦ inl (become_daemon-halted k [] u e g)
          | inr (r, v, g, f) ↦ inr (ground (arith, f, become_daemon-fails closed [] v r g))
        ]

  endless : (u : Trace) (x : Unit {0}) → main fuel k [] ≡ done x u → ⊥
  unfolding main
  endless u x h =
      let (r, v, g, f) =
        and_then_done (become_daemon 0 k [])
          (λ status. if int_eq status (negsuc 0) then die "becomeDaemon\n" 1 else serve fuel) k h in
      ground (arith, f, become_daemon-fails closed [] v r g)

-- If standard output can be closed, the kernel refuses to copy it while it is closed, the limit on
-- descriptors is known and above 1, and /dev/null opens under another number than 1, then no process of
-- the echo server ever serves, however long it could: each exits with status 0 or 1.
pub main-gone :
    (k : Kernel) (limit null_fd fuel : ℕ)
    → AllClosed k limit null_fd
    → (u : Trace) × (e : End) × (main fuel k [] ≡ halted e u) × ((e ≡ exited 0) ⊎ (e ≡ exited 1))
main-gone k limit null_fd fuel closed = elim (run_cases (main fuel k [])) [
  | inl (x, u, h) ↦ absurd (endless k limit null_fd fuel closed u x h)
  | inr (e, u, h) ↦ (u, e, h, ends k limit null_fd fuel closed u e h)
]
