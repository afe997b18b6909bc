-- ===== src/Epoll/Examples.antt =====
-- Short runs of the three servers.
use linux_unix_system_progra.Prelude.{
  c_string, ◌-◌, ◌≡◌, ◌++◌, refl, true, some, pos, [], ◌∷◌, List, Text, codes, replicate, length,
  take, arith, length-take,
}
use linux_unix_system_progra.Sys.{
  Kernel, Trace, ok, fail, eagain, epollin, epollet, epolloneshot, done, Ready, Addr, inet6_any,
  fd_recv, fd_recvfrom, epoll_wait, loop,
}
use linux_unix_system_progra.Sys.Sample.{sample, trace}
use linux_unix_system_progra.Epoll.Trigger
use linux_unix_system_progra.Epoll.OneShot
use linux_unix_system_progra.Epoll.TcpUdp
use linux_unix_system_progra.Epoll.Served.{asked, ended, shut_down, inputs, lt-Served}
use linux_unix_system_progra.Epoll.Worker.{rearms, last_recv, worker-Armed}
use linux_unix_system_progra.Epoll.Echo.{
  last_datagram, last_reply, SendsWhole, udp_event-Answered, main-SendsWhole,
}

-- A new connection, and input on another one.
abbrev events : List Ready
events = record { fd = pos 5; has_input = true } ∷ record { fd = pos 6; has_input = true } ∷ []

lt-Served_example :
    (u : Trace) × (Trigger.lt events 7 (pos 5) sample [] ≡ done tt u)
    × (asked u ≡ asked [] ++ inputs (pos 5) events)
    × (shut_down u ≡ ended u)
unfolding ended shut_down
lt-Served_example = lt-Served sample 7 (pos 5) events [] refl

abbrev server_args : List Text
server_args = codes "server" ∷ codes "::1" ∷ codes "80" ∷ []

abbrev drained : Kernel
drained t (fd_recv _ _) = fail eagain
drained t c = sample t c

abbrev ended_run : Trace
ended_run = trace (OneShot.worker 2 7 (pos 6) drained [])

worker-Armed_example :
    (rearms ended_run ≡ (7, pos 6, epollin ∷ epollet ∷ epolloneshot ∷ []) ∷ rearms [])
    × (last_recv (pos 6) ended_run ≡ some (fail eagain))
unfolding OneShot.worker OneShot.worker_round OneShot.reset_oneshot loop
worker-Armed_example = worker-Armed drained 7 (pos 6) 2 [] ended_run tt refl

-- A datagram, and a TCP connection with three bytes.
abbrev echo_kernel : Kernel
echo_kernel t (fd_recvfrom _ _) = ok (codes "hi", inet6_any 9)
echo_kernel t (fd_recv _ n) = ok (take n (codes "abc"))
echo_kernel t (epoll_wait _ _) = ok (record { fd = pos 6; has_input = true } ∷ [])
echo_kernel t c = sample t c

abbrev answered : Trace
answered = trace (TcpUdp.udp_event 5 echo_kernel [])

udp_event-Answered_example :
    (bs : Text) × (from : Addr) × (last_datagram answered ≡ some (pos 5, bs, from))
    × (last_reply answered ≡ some (pos 5, take 1024 (bs ++ replicate (1024 - length bs) 0), from))
unfolding TcpUdp.udp_event TcpUdp.udp_answer c_string
udp_event-Answered_example = udp_event-Answered 5 echo_kernel [] answered tt refl

main-SendsWhole_example : SendsWhole (trace (TcpUdp.main 2 server_args echo_kernel []))
main-SendsWhole_example =
    main-SendsWhole echo_kernel (λ t fd n bs h. ground (arith, h, length-take n (codes "abc"))) 2
      server_args
