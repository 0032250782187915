-- ===== src/Database.antt =====
-- internal/database: what the broker stores.
pub mod Types
pub mod PacketId
pub mod Session
pub mod Services
pub mod Store
pub mod Tree
pub mod Wills
pub mod AllSessions
pub mod Connect
pub mod Tests
