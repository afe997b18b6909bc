-- ===== src/PosixQueue.antt =====
-- TLPI/chapter52, the tools for POSIX message queues: pmsg_create.c, pmsg_send.c and pmsg_receive.c.
pub mod Create
pub mod Send
pub mod Receive
pub mod Settings
pub mod Stuck
pub mod Shown
mod Examples
