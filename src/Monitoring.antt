-- ===== src/Monitoring.antt =====
-- Monitoring (monitoring/): producers gather what readers and participants report, and pass it on to
-- consumers, in periods that the monitor's events give.
pub mod Topics
pub mod Production
pub mod History
pub mod Counts
pub mod Keyed
pub mod Reports
pub mod Entries
pub mod Published
pub mod Conserved
pub mod Status
pub mod Monitor
mod Tests
