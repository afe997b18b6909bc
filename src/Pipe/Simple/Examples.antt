-- ===== src/Pipe/Simple/Examples.antt =====
-- Three bytes in the pipe.
use linux_unix_system_progra.Pipe.Simple.{parent}
use linux_unix_system_progra.Sys.{exited, halted, ok, fork}
use linux_unix_system_progra.Sys.Sample.{sample}
use linux_unix_system_progra.Prelude.{◌∷◌, List, Text}
use linux_unix_system_progra.Pipe.Simple.{main}
use linux_unix_system_progra.Pipe.Simple.{child_round}
use linux_unix_system_progra.Pipe.Simple.{child_end}
use linux_unix_system_progra.Prelude.{◌≡◌, refl, true, [], ◌++◌, codes}
use linux_unix_system_progra.Sys.{Kernel, Trace, loop}
use linux_unix_system_progra.Sys.Sample.{feeding, trace}
use linux_unix_system_progra.Sys.View.{received, sent, closed}
use linux_unix_system_progra.Pipe.Simple.{child}
use linux_unix_system_progra.Pipe.Simple.Ends.{child-sent}

abbrev kernel : Kernel
kernel = feeding (codes "abc")

abbrev u : Trace
u = trace (child 3 3 4 kernel [])

child-sent_example :
    (sent 1 u ≡ received 3 u ++ codes "\n") × (closed 3 u ≡ true) × (closed 4 u ≡ true)
unfolding child loop child_round received child_end
child-sent_example = child-sent kernel (record { write_ok = λ t bs. refl }) 3 4 3 u refl

-- The process that fork leaves as the parent.
abbrev parents : Kernel
parents t fork = ok 8
parents t c = sample t c

abbrev argv : List Text
argv = codes "simple_pipe" ∷ codes "abc" ∷ []

main_child_exits : main 3 argv kernel [] ≡ halted (exited 0) (trace (main 3 argv kernel []))
unfolding main child loop child_round received child_end
main_child_exits = refl

main_parent_exits : main 3 argv parents [] ≡ halted (exited 0) (trace (main 3 argv parents []))
unfolding main parent
main_parent_exits = refl
