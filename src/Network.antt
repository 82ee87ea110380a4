-- ===== src/Network.antt =====
-- libs/network: datagrams in and out.
pub mod UdpServer
pub mod UdpClient
pub mod Sockets
