-- ===== src/Datagram/CaseServer/Answers.antt =====
-- The answers of the server, in order.
use linux_unix_system_progra.Prelude.{ℕ, ◌≡◌, ◌⊎◌, List, [], ◌∷◌, Text}
use linux_unix_system_progra.Sys.{
  Reply, ok, Addr, af_inet6, sock_dgram, socket, bind, inet6_any, Trace, Kernel, End, exited,
  out_of_fuel,
}
use linux_unix_system_progra.Sys.View.{datagrams, replies}
use linux_unix_system_progra.Datagram.CaseServer.{upper, port_num}

-- What the server owes for what it got.
pub owed : List (Text × Addr) → List (Text × Addr)
owed [] = []
owed ((bs, a) ∷ l) = (upper bs, a) ∷ owed l

module _ (sfd : ℕ) (k : Kernel) where
  abbrev Paid : Unit {0} → Trace → Type 0
  Paid s t = replies sfd t ≡ owed (datagrams sfd t)

  abbrev Outcome : End → Trace → Type 0
  Outcome e u = (e ≡ exited 1) ⊎ ((e ≡ out_of_fuel) × (replies sfd u ≡ owed (datagrams sfd u)))

module _ (k : Kernel) (sfd fuel : ℕ)
    (made : (t : Trace) → k t (socket af_inet6 sock_dgram 0) ≡ ok sfd) where
  abbrev bound : Reply (Unit {0}) → Trace
  bound x = (bind sfd (inet6_any port_num), x) ∷ (socket af_inet6 sock_dgram 0, ok sfd) ∷ []

  abbrev x : Reply (Unit {0})
  x = k ((socket af_inet6 sock_dgram 0, ok sfd) ∷ []) (bind sfd (inet6_any port_num))
