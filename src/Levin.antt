-- ===== src/Levin.antt =====
-- The levin peer-to-peer protocol: the package levin/.
pub mod Error
pub mod Slice
pub mod VarIn
pub mod Header
pub mod Entry
pub mod Boost
pub mod Storage
pub mod Node
pub mod Ping
pub mod TimedSync
pub mod Conn
pub mod Client
