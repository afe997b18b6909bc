-- ===== src/UnixSocket/Server/Examples.antt =====
-- A connection with three bytes.
use linux_unix_system_progra.UnixSocket.Server.{serve_round}
use linux_unix_system_progra.Prelude.{
  ◌≤◌, ◌≡◌, ◌==◌, ◌++◌, [], Text, codes, drop, length, length-take, refl, arith, if◌then◌else◌,
}
use linux_unix_system_progra.Sys.{
  Kernel, Trace, ok, fail, ebadf, read, write, loop, halted, out_of_fuel,
}
use linux_unix_system_progra.Sys.Sample.{feeding, trace}
use linux_unix_system_progra.Sys.View.{received, sent}
use linux_unix_system_progra.UnixSocket.Client.{size_max}
use linux_unix_system_progra.UnixSocket.Server.{receive_round, main}
use linux_unix_system_progra.UnixSocket.Server.Shown.{receive-Relayed}

abbrev kernel : Kernel
kernel t (write fd bs n) = if n == size_max then fail ebadf else ok n
kernel t c = feeding (codes "abc") t c

read_short : (t : Trace) (bs : Text) → kernel t (read 6 100) ≡ ok bs → length bs ≤ 100
read_short t bs h = ground (arith, length-take 100 (drop (length (received 6 t)) (codes "abc")))

abbrev u : Trace
u = trace (loop 3 (receive_round 6) [] kernel [])

receive-Relayed_example :
    (bs : Text) × (received 6 u ≡ received 6 [] ++ bs) × (sent 1 u ≡ sent 1 [] ++ bs)
unfolding loop receive_round received
receive-Relayed_example =
    receive-Relayed kernel 6 (record { not_all = λ t buf e. ground arith; read_le = read_short }) []
      3 [] (codes "abc") u refl

main_serves : main 3 [] kernel [] ≡ halted out_of_fuel (trace (main 3 [] kernel []))
unfolding main loop serve_round received
main_serves = refl
