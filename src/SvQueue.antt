-- ===== src/SvQueue.antt =====
-- TLPI/chapter46, the tools for System V message queues: svmsg_create.c, svmsg_send.c and
-- svmsg_receive.c.
pub mod Create
pub mod Send
pub mod Receive
mod Examples
pub mod Exchange
