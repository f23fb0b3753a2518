-- ===== src/Instance.antt =====
-- pkg/connectopus/connectopus.go: a node as it runs from its configuration.
pub mod Signed
pub mod Signing
pub mod Start
mod Tests
mod Samples
pub mod Update
pub mod Children
pub mod Items
pub mod Links
