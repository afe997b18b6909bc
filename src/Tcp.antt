-- ===== src/Tcp.antt =====
-- hplsp/chapter6, 9 and 11: programs with one TCP connection. 4_splice.cpp, 3_sendfile.cpp, 1_CGI.cpp,
-- 9_6_chatroom_client.cpp and 11_1_connect_timeout.cpp.
pub mod Listener
pub mod Splice
pub mod SendFile
pub mod Cgi
pub mod ChatClient
pub mod TimedConnect
pub mod Relay
