-- ===== src/Node.antt =====
-- crates/meshcore/src/node.rs: the parts of the node.
pub mod State
pub mod Payload
pub mod Fanout
pub mod Session
pub mod Handshake
pub mod Commands
pub mod Links
pub mod Inbound
pub mod Drive
pub mod Keeps
pub mod Safety
pub mod Reach
pub mod Trust
pub mod Attribution
pub mod Binding
pub mod Flood
pub mod Erasure
pub mod Delivery
pub mod Frames
pub mod Originals
pub mod Sync
mod Tests
