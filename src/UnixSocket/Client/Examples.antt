-- ===== src/UnixSocket/Client/Examples.antt =====
-- A transfer of three bytes, and a broken input.
use linux_unix_system_progra.Sys.{exited}
use linux_unix_system_progra.UnixSocket.Client.{main}
use linux_unix_system_progra.Prelude.{
  ◌≤◌, ◌≡◌, refl, [], Text, codes, drop, length, arith, ◌==◌, if◌then◌else◌, length-take,
}
use linux_unix_system_progra.Sys.{Kernel, Trace, ok, fail, read, write, halted, ebadf, loop}
use linux_unix_system_progra.Sys.Sample.{feeding, sample, trace}
use linux_unix_system_progra.Sys.View.{received, sent}
use linux_unix_system_progra.UnixSocket.Client.{send_round, size_max}
use linux_unix_system_progra.UnixSocket.Client.Failure.{loop-sent}

abbrev kernel : Kernel
kernel t (write fd bs n) = if n == size_max then fail ebadf else ok n
kernel t c = feeding (codes "abc") t c

read_short : (t : Trace) (bs : Text) → kernel t (read 0 100) ≡ ok bs → length bs ≤ 100
read_short t bs h = ground (arith, length-take 100 (drop (length (received 0 t)) (codes "abc")))

abbrev u : Trace
u = trace (loop 3 (send_round 5) [] kernel [])

loop-sent_example : sent 5 u ≡ received 0 u
unfolding received sent loop send_round
loop-sent_example =
    loop-sent kernel 5 (record { not_all = λ t buf e. ground arith; read_le = read_short }) 3 [] []
      u tt refl refl

abbrev broken : Kernel
broken t (read fd n) = fail ebadf
broken t (write fd bs n) = fail ebadf
broken t c = sample t c

main_exits : main 3 [] kernel [] ≡ halted (exited 0) (trace (main 3 [] kernel []))
unfolding main loop send_round received
main_exits = refl
