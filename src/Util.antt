-- ===== src/Util.antt =====
-- internal/util: the containers and text helpers that the other packages share.
pub mod Queue
pub mod Text
pub mod CodeWrappers
pub mod SyncSet
pub mod SyncMap
pub mod Tally
pub mod TextPieces
pub mod Disk
