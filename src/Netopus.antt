-- ===== src/Netopus.antt =====
-- pkg/netopus/netopus.go: a node of the mesh. `Node` is its state, `Updates` the routing updates,
-- `Packets` what is sent where, `Names` the name service.
pub mod Node
pub mod Updates
pub mod Packets
pub mod Names
pub mod Sessions
pub mod Ports
pub mod Lifecycle
pub mod Samples
mod Tests
