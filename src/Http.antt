-- ===== src/Http.antt =====
-- The http part.
pub mod Status
pub mod HeaderScanner
pub mod Message
pub mod Agent
pub mod Incoming
pub mod Server
