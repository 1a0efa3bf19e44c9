-- ===== src/Hub.antt =====
-- cargo/src/hub.rs: the hub, which owns authorization and routing.
pub mod State
pub mod Session
pub mod Registry
pub mod Route
pub mod Loop
pub mod Upload
pub mod Handshake
