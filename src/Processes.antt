-- ===== src/Processes.antt =====
-- TLPI/chapter26: programs that wait for their children.
pub mod MultiWait
