-- ===== src/Setlists.antt =====
-- Setlists: the detection in texts of src/concertpvr/setlist_detector.py, the pasted lineups of
-- src/concertpvr/setlist_parser.py, and the endpoints of src/concertpvr/api/setlists.py.
pub mod Lines
pub mod Detector
pub mod Blocks
pub mod Bounds
pub mod Parser
pub mod Api
pub mod Replace
pub mod Clock
pub mod Solid
pub mod Paste
mod Tests
