-- ===== src/Auth.antt =====
-- Passwords and sessions: src/concertpvr/auth.py, src/concertpvr/session.py,
-- src/concertpvr/api/auth.py, and the settings of src/concertpvr/api/settings.py with the Emby client
-- of src/concertpvr/emby.py that they configure.
pub mod Session
pub mod Emby
pub mod Settings
pub mod Access
pub mod Login
mod Tests
