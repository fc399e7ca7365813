-- ===== src/Dns.antt =====
-- The DNS service, Lars/lars_dns.
pub mod Messages
pub mod SubscribeList
pub mod Route
pub mod Service
mod Tests
