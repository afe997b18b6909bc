-- ===== src/Fifo.antt =====
-- TLPI/chapter44/FIFO_SERVER_CLIENT: sequence numbers handed out over FIFOs.
pub mod Wire
pub mod Server
pub mod Client
