-- ===== src/Segment.antt =====
-- Segments of a recording: the drafts derived from chapters or a setlist (segmenter.py), the listener
-- that derives them when a recording is complete (auto_segment.py), and the endpoints (api/segments.py).
pub mod Segmenter
pub mod Drafts
pub mod AutoSegment
pub mod Api
pub mod Bounds
pub mod Bulk
pub mod Tally
pub mod Effects
pub mod Once
pub mod Requests
mod Tests
