-- ===== src/ShmTransfer.antt =====
-- TLPI/chapter48/svshm_xfr.h: a writer and a reader that pass blocks through a shared segment, in
-- turns kept by two binary semaphores.
pub mod Keys
pub mod Writer
pub mod Reader
pub mod Transfer
