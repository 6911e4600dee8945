-- ===== src/Ingestion.antt =====
-- programs/saas-services/bb-monitor-ingestion-srv: the sinks and their factory, the call objects of
-- the six service methods, and the loop that drives them.
pub mod Sink
pub mod Factory
pub mod Call
pub mod Metrics
pub mod Logs
pub mod Intakes
pub mod Loop
mod Tests
