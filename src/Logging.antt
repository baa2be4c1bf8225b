-- ===== src/Logging.antt =====
-- include/server/logging: the buffer of a message, the logger that collects messages, the log file.
pub mod Format
pub mod Stream
pub mod Logger
pub mod FileName
pub mod LogFile
pub mod Journal
pub mod Settings
pub mod Sinks
pub mod Message
pub mod Lifetime
mod Tests
