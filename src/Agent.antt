-- ===== src/Agent.antt =====
-- The load-balancing agent, Lars/lars_lb_agent.
pub mod Messages
pub mod HostInfo
pub mod LoadBalance
pub mod RouteLb
pub mod Api
pub mod Threads
pub mod Setup
mod Tests
mod ThreadTests
mod MoreTests
