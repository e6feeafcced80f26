-- ===== src/Database.antt =====
-- internal/database: what the server stores, in MongoDB collections behind caches.
pub mod Documents
pub mod Driver
pub mod Store
pub mod Records
pub mod Init
pub mod Messages
pub mod Routes
