-- ===== src/PosixShm.antt =====
-- TLPI/chapter54, the tools for POSIX shared memory: pshm_create.c, pshm_write.c and pshm_read.c.
pub mod Create
pub mod Write
pub mod Read
pub mod Sizes
pub mod Exchange
mod Examples
