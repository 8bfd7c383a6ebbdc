-- ===== src/Protocol.antt =====
-- internal/protocol: message identifiers, duplicate detection and framing.
pub mod MessageId
pub mod Dedup
pub mod Frame
pub mod Messages
mod Tests
