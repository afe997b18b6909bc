-- ===== src/MessageFile.antt =====
-- TLPI/chapter46/server: a file server over System V message queues.
pub mod Protocol
pub mod Server
pub mod Client
