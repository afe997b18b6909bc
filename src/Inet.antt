-- ===== src/Inet.antt =====
-- TLPI/chapter59 and TLPI/chapter60: Internet domain sockets.
pub mod Sockets
pub mod AddressStr
