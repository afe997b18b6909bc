-- ===== src/Datagram/CaseClient/Messages.antt =====
-- What the client sends and gets.
use linux_unix_system_progra.Prelude.{
  ℕ, ◌+◌, ◌≡◌, List, [], ◌∷◌, ◌++◌, Text, arith, append-nil, append_assoc, length, length-append,
  take-length,
}
use linux_unix_system_progra.Sys.{Addr, Trace, Kernel, done}
use linux_unix_system_progra.Sys.View.{datagrams, replies}
use linux_unix_system_progra.Datagram.CaseClient.{talk}

-- The messages as datagrams to one address.
unfoldable pub addressed : Addr → List Text → List (Text × Addr)
addressed a [] = []
addressed a (m ∷ rest) = (m, a) ∷ addressed a rest

-- When the loop over the messages is done, the socket has taken each of them, whole and in order,
-- for the address of the server, and one datagram came in for each.
pub talk-addressed :
    (cfd i : ℕ) (a : Addr) (messages : List Text) (k : Kernel) (t u : Trace) (x : Unit {0})
    → talk cfd a i messages k t ≡ done x u
    → (replies cfd u ≡ replies cfd t ++ addressed a messages)
      × (length (datagrams cfd u) ≡ length (datagrams cfd t) + length messages)
unfolding talk replies datagrams addressed
talk-addressed cfd i a [] k t u x h = grind (arith, append-nil)
talk-addressed cfd i a (m ∷ rest) k t u x h =
    grind (arith, talk-addressed cfd (i + 1) a rest k, append_assoc, take-length, length-append {0})
