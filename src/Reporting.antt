-- ===== src/Reporting.antt =====
-- internal/reporting: the transfer of the report files from one peer to the other.
pub mod Transfer
pub mod Compare
mod Tests
