-- ===== src/Datagram/EchoClient/Descriptor.antt =====
-- Where the client writes its messages.
use linux_unix_system_progra.Prelude.{
  ℕ, Option, Bool-cases, ltb, length, ◌≡◌, ◌≢◌, inl, inr, false, text_eq, codes, none, some, List,
  [], ◌∷◌, Text, arith,
}
use linux_unix_system_progra.Sys.{
  Trace, Kernel, End, exited, done, halted, and_then_halted, exit, sock_dgram,
}
use linux_unix_system_progra.Sys.View.{WritesOnly}
use linux_unix_system_progra.Inet.Sockets.{inet_connect}
use linux_unix_system_progra.Inet.Sockets.Writes.{connect-WritesOnly, connect-halted}
use linux_unix_system_progra.Datagram.EchoServer.{service}
use linux_unix_system_progra.Datagram.EchoClient.{descriptor, talk, after_connect, main}

module _ (k : Kernel) where
  talk-WritesOnly :
      (m : Text) (rest : List Text) (t u : Trace) (e : End)
      → WritesOnly 0 t
      → talk 0 (m ∷ rest) k t ≡ halted e u
      → (e ≢ exited 0) × WritesOnly 0 u
  unfolding talk
  talk-WritesOnly m rest t u e w h = ground arith

  talk-goes_nowhere :
      (m : Text) (rest : List Text) (t u : Trace) (x : Unit {0})
      → talk 0 (m ∷ rest) k t ≡ done x u
      → ⊥
  unfolding talk
  talk-goes_nowhere m rest t u x h = ground arith

  after_connect-WritesOnly :
      (c : Option ℕ) (m : Text) (rest : List Text) (t u : Trace) (e : End)
      → WritesOnly 0 t
      → after_connect c (m ∷ rest) k t ≡ halted e u
      → (e ≢ exited 0) × WritesOnly 0 u
  unfolding after_connect descriptor
  after_connect-WritesOnly none m rest t u e w h = ground arith
  after_connect-WritesOnly (some c) m rest t u e w h =
      elim (and_then_halted (talk 0 (m ∷ rest) k t) (λ _. exit 0) k h) [
        | inl g ↦ talk-WritesOnly m rest t u e w g
        | inr (x, v, g, f) ↦ absurd (talk-goes_nowhere m rest t v x g)
      ]

  -- With at least one message, the echo client never exits with status 0, and whatever it writes
  -- goes to descriptor 0 and not to the socket that it connected.
  pub main-WritesOnly :
      (p host m : Text) (rest : List Text) (u : Trace) (e : End)
      → main (p ∷ host ∷ m ∷ rest) k [] ≡ halted e u
      → (e ≢ exited 0) × WritesOnly 0 u
  unfolding main text_eq
  main-WritesOnly p host m rest u e h = elim (Bool-cases (text_eq host (codes "--help"))) [
    | inl help ↦ ground (arith, help, enough)
    | inr plain ↦
        elim (and_then_halted (inet_connect host service sock_dgram k [])
          (λ c. after_connect c (m ∷ rest)) k (simp (plain, enough) at h)) [
            | inl g ↦ connect-halted k host service sock_dgram 0 [] u e tt g
            | inr (c, v, g, f) ↦
                after_connect-WritesOnly c m rest v u e
                  (connect-WritesOnly k host service sock_dgram 0 [] v c tt g) f
          ]
  ]
    where
      enough : ltb (length (p ∷ host ∷ m ∷ rest)) 2 ≡ false
      enough = ground arith
