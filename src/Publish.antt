-- ===== src/Publish.antt =====
-- Publishing a segment to the media library: src/concertpvr/publisher.py with the metadata that it
-- hands to src/concertpvr/metadata.py.
pub mod Metadata
pub mod Worker
pub mod Outcome
pub mod Source
pub mod Publisher
mod Tests
