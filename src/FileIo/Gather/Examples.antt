-- ===== src/FileIo/Gather/Examples.antt =====
-- Two strings, and an array of zeros.
use linux_unix_system_progra.Prelude.{codes}
use linux_unix_system_progra.FileIo.Gather.{Iovec, iovec}

abbrev first : Iovec
first = iovec (codes "ab") 2

abbrev second : Iovec
second = iovec (codes "c") 1
