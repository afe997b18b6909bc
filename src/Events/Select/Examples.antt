-- ===== src/Events/Select/Examples.antt =====
-- Descriptor 0 for reading and 1 for writing, and the one that is too large.
use linux_unix_system_progra.Prelude.{◌≡◌, refl, some, pos, [], ◌∷◌, codes, text_eq, scan_int}
use linux_unix_system_progra.Sys.{halted, undefined}
use linux_unix_system_progra.Sys.Sample.{sample, trace}
use linux_unix_system_progra.Events.Select.{Sets, sets, scan_fd, add, add_all, main}

abbrev garbage : Sets
garbage = sets (7 ∷ []) [] (pos 3)

scans : scan_fd (codes " 12rwx") ≡ some (pos 12, codes "rw")
unfolding scan_fd scan_int
scans = refl

too_large :
    main garbage (codes "p" ∷ codes "-" ∷ codes "1024r" ∷ []) sample []
    ≡ halted undefined (trace (main garbage (codes "p" ∷ codes "-" ∷ codes "1024r" ∷ []) sample []))
unfolding main add_all add scan_fd scan_int text_eq
too_large = refl
