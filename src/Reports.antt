-- ===== src/Reports.antt =====
-- The request of a report in the reports module (src/modules/reports).
pub mod Service
pub mod Laws
pub mod Report
pub mod Median
pub mod Processor
pub mod Counts
pub mod Scope
pub mod Contents
pub mod Delivery
