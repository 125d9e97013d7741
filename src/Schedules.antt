-- ===== src/Schedules.antt =====
-- Scheduled recordings: src/concertpvr/schedule_manager.py, src/concertpvr/scheduled_runner.py and
-- src/concertpvr/api/schedules.py.
pub mod Manager
pub mod Api
pub mod Jobs
pub mod Rehydrate
pub mod Requests
pub mod Runner
pub mod Outcome
mod Tests
