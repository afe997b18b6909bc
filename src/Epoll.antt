-- ===== src/Epoll.antt =====
-- hplsp/chapter9: servers that wait with epoll. 9_3_epoll_LT_ET.cpp, 9_4_EPOLLONESHOT.cpp and
-- 9_8_TCP_UDP.cpp.
pub mod Trigger
pub mod OneShot
pub mod TcpUdp
pub mod Served
pub mod Worker
pub mod Echo
mod Examples
