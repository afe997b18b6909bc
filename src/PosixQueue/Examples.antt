-- ===== src/PosixQueue/Examples.antt =====
-- Runs of the three tools.
use linux_unix_system_progra.Prelude.{refl, some, [], ◌∷◌, codes}
use linux_unix_system_progra.Sys.{Kernel, Trace, exited, getopt, operands, loop}
use linux_unix_system_progra.Sys.Sample.{sample, trace}
use linux_unix_system_progra.PosixQueue.Create
use linux_unix_system_progra.PosixQueue.Settings.{AsDescribed, main-AsDescribed}

-- pmsg_create -m 7 /q
abbrev create_kernel : Kernel
create_kernel [] (getopt _) = some (b'm', codes "7")
create_kernel t operands = codes "/q" ∷ []
create_kernel t c = sample t c

abbrev made : Trace
made = trace (Create.main 2 (codes "pmsg_create" ∷ []) create_kernel [])

main-AsDescribed_example : AsDescribed made
unfolding Create.main Create.option_round Create.make Create.usage_error loop AsDescribed
main-AsDescribed_example =
    main-AsDescribed 2 (codes "pmsg_create" ∷ []) create_kernel made (exited 0) refl
