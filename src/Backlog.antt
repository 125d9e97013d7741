-- ===== src/Backlog.antt =====
-- The backlog of a watched channel: the cache of src/concertpvr/backlog_cache.py and the endpoints of
-- src/concertpvr/api/channel_watchers.py.
pub mod Cache
pub mod Batches
pub mod Merge
pub mod Loop
pub mod Views
pub mod Resume
pub mod Downloads
pub mod Queued
pub mod Dropped
pub mod Api
pub mod Browse
mod Tests
