-- ===== src/Events.antt =====
-- TLPI/chapter63: programs that wait for several descriptors.
mod Chosen
pub mod PollPipes
pub mod Select
