-- ===== src/Peer.antt =====
-- internal/peer: the control-plane session between the two processes.
pub mod State
pub mod Ready
pub mod Handshake
pub mod Lifecycle
pub mod Loop
mod Tests
