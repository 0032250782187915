-- ===== src/Mqtt.antt =====
-- internal/mqtt: the packet types, the fixed header and the framing of packets.
pub mod PacketType
pub mod Conn
pub mod Length
pub mod Frame
mod Tests
