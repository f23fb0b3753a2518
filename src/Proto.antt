-- ===== src/Proto.antt =====
-- pkg/proto: addresses and subnets (tcpip.go) and the wire format of messages (proto.go).
pub mod Ip
pub mod Subnet
pub mod Text
pub mod Message
mod Tests
