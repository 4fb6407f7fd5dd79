-- ===== src/Lock.antt =====
-- The locks of include/lock.
pub mod RwLock
