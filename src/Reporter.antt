-- ===== src/Reporter.antt =====
-- The reporter, Lars/lars_reporter.
pub mod Store
pub mod Service
mod Tests
