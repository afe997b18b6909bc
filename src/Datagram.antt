-- ===== src/Datagram.antt =====
-- TLPI/chapter59/i6d_ucase.h, i6d_ucase_sv.c, i6d_ucase_cl.c and TLPI/chapter60/id_echo.h,
-- id_echo_sv.c, id_echo_cl.c: two servers of datagrams, with their clients.
pub mod CaseServer
pub mod CaseClient
pub mod EchoServer
pub mod EchoClient
