-- ===== src/Vod.antt =====
-- The VOD download path: the queue (vod_queue.py), the handler that the queue's workers call
-- (`_vod_handler` in main.py), the recovery at startup (vod_recovery.py, orphan_recovery.py) and the
-- endpoints that cancel and retry a download (api/recordings.py).
pub mod Queue
pub mod Handler
pub mod Recovery
pub mod Startup
pub mod Api
pub mod Workers
mod Tests
