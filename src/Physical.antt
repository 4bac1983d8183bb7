-- ===== src/Physical.antt =====
-- src/layers/physical: the transports.
pub mod Tasks
pub mod TcpServer
pub mod Serial
pub mod TcpClient
pub mod Udp
