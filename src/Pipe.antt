-- ===== src/Pipe.antt =====
-- TLPI/chapter44: processes joined by a pipe.
pub mod Simple
pub mod LsWc
