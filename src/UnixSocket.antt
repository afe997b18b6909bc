-- ===== src/UnixSocket.antt =====
-- TLPI/chapter57: a stream over a UNIX domain socket.
pub mod Server
pub mod Client
