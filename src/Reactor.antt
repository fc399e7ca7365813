-- ===== src/Reactor.antt =====
-- The reactor library, Lars/lars_reactor.
pub mod IoBuf
pub mod BufPool
pub mod ReactorBuf
pub mod Message
pub mod EventLoop
pub mod ThreadPool
pub mod TcpServer
pub mod ConfigFile
pub mod TcpConn
pub mod TcpClient
pub mod Udp
mod Tests
mod ServerTests
mod ClientTests
mod LinkTests
