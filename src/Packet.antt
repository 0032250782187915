-- ===== src/Packet.antt =====
-- internal/packet: the parsers and builders of the control packets.
pub mod Reader
pub mod Publish
pub mod Connect
pub mod Subscribe
pub mod Answers
mod Tests
