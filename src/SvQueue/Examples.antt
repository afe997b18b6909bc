-- ===== src/SvQueue/Examples.antt =====
-- Runs of the three tools.
use linux_unix_system_progra.Prelude.{
  ℕ, ◌≡◌, ◌≢◌, refl, ap, ℤ, some, pos, [], ◌∷◌, ◌++◌, Text, codes, arith, c_string, if◌then◌else◌,
  ltb,
}
use linux_unix_system_progra.Sys.{
  Kernel, Trace, ok, exited, undefined, operands, queue_receive, loop,
}
use linux_unix_system_progra.Sys.Sample.{sample, trace}
use linux_unix_system_progra.SvQueue.Send
use linux_unix_system_progra.SvQueue.Send.Bounds.{SendsFit, main-SendsFit}
use linux_unix_system_progra.SvQueue.Receive
use linux_unix_system_progra.SvQueue.Receive.Buffer.{Delivers, main-Defined}
use linux_unix_system_progra.SvQueue.Exchange.{last_sent, last_shown, show-send}

-- svmsg_send 1 5 hi
abbrev send_kernel : Kernel
send_kernel t operands = codes "1" ∷ codes "5" ∷ codes "hi" ∷ []
send_kernel t c = sample t c

abbrev sent : Trace
sent = trace (Send.main 1 (codes "svmsg_send" ∷ []) send_kernel [])

main-SendsFit_example : SendsFit sent
unfolding Send.main Send.option_round Send.send Send.message Send.usage_error loop SendsFit
main-SendsFit_example = main-SendsFit 1 (codes "svmsg_send" ∷ []) send_kernel sent (exited 0) refl

-- svmsg_receive 1
abbrev receive_kernel : Kernel
receive_kernel t operands = codes "1" ∷ []
receive_kernel t (queue_receive _ n _ _) =
    if ltb n 3 then ok (pos 5, []) else ok (pos 5, codes "hi" ++ 0 ∷ [])
receive_kernel t c = sample t c

ended :
    (n : ℕ) (mtype : ℤ) (b : ℕ) (bs garbage : Text)
    → receive_kernel [] (queue_receive (pos 0) n (pos 0) []) ≡ ok (mtype, b ∷ bs)
    → c_string (b ∷ bs ++ garbage) ≡ some (codes "hi")
unfolding c_string
ended n mtype b bs garbage h =
    let same : b ∷ bs ≡ codes "hi" ++ 0 ∷ [] = ground (arith, h) in
    ap (λ s. c_string (s ++ garbage)) same

receive_kernel-Delivers : Delivers receive_kernel
receive_kernel-Delivers = record {
  size_le = λ t id type mtype n bs flags h. ground (arith, h);
  ended = λ t id type mtype n b bs flags h. (codes "hi", λ garbage. ended n mtype b bs garbage h);
}

abbrev received : Trace
received = trace (Receive.main 1 [] (codes "svmsg_receive" ∷ []) receive_kernel [])

main-Defined_example : exited 0 ≢ undefined
unfolding Receive.main Receive.option_round Receive.receive Receive.show_message Receive.usage_error
    loop c_string
main-Defined_example =
    main-Defined 1 [] (codes "svmsg_receive") [] receive_kernel received (exited 0)
      receive_kernel-Delivers (λ t. omega arith) refl

abbrev shown : Trace
shown = trace (Receive.show_message [] (pos 5) (codes "hi" ++ 0 ∷ []) sample [])

show-send_example : (exited 0 ≡ exited 0) × (last_shown shown ≡ some (codes "hi"))
unfolding Send.send Send.message Receive.show_message last_sent c_string
show-send_example =
    show-send [] (codes "1") (codes "5") (codes "hi") [] (codes "hi" ++ 0 ∷ []) (pos 5) sample
      sample [] [] (trace (Send.send [] (codes "1" ∷ codes "5" ∷ codes "hi" ∷ []) sample [])) shown
      (exited 0) ((λ e. ground arith), ((λ e. ground arith), tt)) refl refl refl
