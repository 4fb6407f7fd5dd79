-- ===== src/Wal.antt =====
-- The write-ahead log of include/distributed_system.
pub mod Types
pub mod Object
pub mod Subscriber
pub mod Publisher
pub mod Client
pub mod Keys
pub mod Laws
