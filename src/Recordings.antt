-- ===== src/Recordings.antt =====
-- The recordings' endpoints of src/concertpvr/api/recordings.py, other than those of the downloads
-- (Vod/Api).
pub mod Media
pub mod Chunks
pub mod Api
mod Tests
