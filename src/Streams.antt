-- ===== src/Streams.antt =====
-- The streams' endpoints of src/concertpvr/api/streams.py, but for the URLs of channels and playlists,
-- listing and deleting.
pub mod Added
pub mod Api
pub mod Create
pub mod Subscriptions
pub mod Watch
mod Tests
